-- ===== src/Prelude/Int.antt =====
-- Signed integers over the native numbers, and the range of `int64_t`.
use Prim.Native.Nat.{ℕ, zero, suc, ◌+◌, ◌-◌, ◌*◌, ◌^◌}
use mathlib.Core.Bool.{Bool}
use kvjet.Prelude.Tests.{ltb, leb, if◌then◌else◌}

-- `negsuc n` is -(n + 1).
pub data ℤ : Type 0 where
  pos : ℕ → ℤ
  negsuc : ℕ → ℤ

-- The integer -n.
abbrev pub neg : ℕ → ℤ
neg zero = pos 0
neg (suc n) = negsuc n

-- `v * 10 + d` and `v * 10 - d`, exactly.
abbrev pub push_digit : ℤ → ℕ → ℤ
push_digit (pos n) d = pos (n * 10 + d)
push_digit (negsuc n) d =
    if leb (suc n * 10) d then pos (d - suc n * 10) else negsuc (suc n * 10 - d - 1)

abbrev pub push_digit_below : ℤ → ℕ → ℤ
push_digit_below (pos n) d = if leb d (n * 10) then pos (n * 10 - d) else negsuc (d - n * 10 - 1)
push_digit_below (negsuc n) d = negsuc (suc n * 10 + d - 1)

-- The value lies in the range of `int64_t`.
abbrev pub is_int64 : ℤ → Bool
is_int64 (pos n) = ltb n (2 ^ 63)
is_int64 (negsuc n) = ltb n (2 ^ 63)
