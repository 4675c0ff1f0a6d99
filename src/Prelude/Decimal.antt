-- ===== src/Prelude/Decimal.antt =====
-- `std::to_string` of an unsigned number, and of a signed one.
use Prim.Native.Nat.{ℕ, zero, suc, ◌+◌, ◌*◌, ◌/◌, ◌%◌, ◌≤◌, ◌<◌}
use mathlib.Core.Bool.{true, false}
use mathlib.Core.List.{[], ◌∷◌, ◌++◌}
use mathlib.Core.Logic.{inl, inr}
use mathlib.Core.Path.{◌≡◌}
use mathlib.Core.Logic.{◌≢◌}
use native.Mathlib.Omega.{arith}
use kvjet.Prelude.Int.{ℤ, pos, negsuc}
use kvjet.Prelude.Lists.{Bytes, All}
use kvjet.Prelude.Tests.{ltb, Bool-cases}

-- One round for each digit; `n` rounds and one more are always enough.
unfoldable pub digits : ℕ → ℕ → Bytes
digits zero n = []
digits (suc f) n = elim (ltb n 10) [
  | true ↦ (b'0' + n) ∷ []
  | false ↦ digits f (n / 10) ++ (b'0' + n % 10) ∷ []
]

unfoldable pub to_string : ℕ → Bytes
unfolding digits
to_string n = digits (suc n) n

unfoldable pub to_string_ℤ : ℤ → Bytes
unfolding to_string
to_string_ℤ (pos n) = to_string n
to_string_ℤ (negsuc n) = b'-' ∷ to_string (suc n)

digits_small : (f n : ℕ) → n < 10 → digits (suc f) n ≡ (b'0' + n) ∷ []
unfolding digits
digits_small f n h = ground arith

digits_large : (f n : ℕ) → 10 ≤ n → digits (suc f) n ≡ digits f (n / 10) ++ (b'0' + n % 10) ∷ []
unfolding digits
digits_large f n h = ground arith

-- Induction on the digits of a number: its leading digits, then one more.
pub digits_induction {ℓ} :
    (P : ℕ → Bytes → Type ℓ)
    → ((d : ℕ) → d < 10 → P d ((b'0' + d) ∷ []))
    → ((m d : ℕ) (ds : Bytes) → d < 10 → 0 < m → P m ds → P (m * 10 + d) (ds ++ (b'0' + d) ∷ []))
    → (f n : ℕ) → n < f
    → P n (digits f n)
digits_induction P one more zero n h = absurd (omega arith)
digits_induction P one more (suc f) n h = elim (Bool-cases (ltb n 10)) [
  | inl e ↦ rw (digits_small f n (ground arith)) (one n (ground arith))
  | inr e ↦
      let ten : 10 ≤ n = ground arith in
      let split : n / 10 * 10 + n % 10 ≡ n = omega arith in
      let ih = digits_induction P one more f (n / 10) (omega arith) in
      rw (digits_large f n ten)
        (rw split at (more (n / 10) (n % 10) (digits f (n / 10)) (omega arith) (omega arith) ih))
]

pub to_string_induction {ℓ} :
    (P : ℕ → Bytes → Type ℓ)
    → ((d : ℕ) → d < 10 → P d ((b'0' + d) ∷ []))
    → ((m d : ℕ) (ds : Bytes) → d < 10 → 0 < m → P m ds → P (m * 10 + d) (ds ++ (b'0' + d) ∷ []))
    → (n : ℕ) → P n (to_string n)
unfolding to_string
to_string_induction P one more n = digits_induction P one more (suc n) n (omega arith)

-- A text without a carriage return, which no encoder escapes.
abbrev pub IsLine : Bytes → Type 0
IsLine = All (λ c. c ≢ 13)

pub to_string-IsLine : (n : ℕ) → IsLine (to_string n)
to_string-IsLine =
    to_string_induction (λ _ ds. IsLine ds) (λ d small. omega arith)
      (λ m d ds small big ih. snoc ds ih (omega arith))
  where
    snoc : {c : ℕ} (ds : Bytes) → IsLine ds → c ≢ 13 → IsLine (ds ++ c ∷ [])
    snoc [] h k = (k, tt)
    snoc (d ∷ ds) h k = (h.0, snoc ds h.1 k)
