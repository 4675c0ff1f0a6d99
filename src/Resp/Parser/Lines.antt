-- ===== src/Resp/Parser/Lines.antt =====
-- Reading the scalar parts of a message: lines, integers and bulk bodies.
use kvjet.Prelude.{
  ℕ, suc, ◌+◌, ◌^◌, ◌<◌, List, [], ◌∷◌, ◌++◌, ◌≡◌, ◌≢◌, refl, Bytes, length, some, arith,
  append_assoc, append-nil, ltb→lt, length-append,
}
use kvjet.Prelude.Decimal.{to_string_ℤ, IsLine}
use kvjet.Prelude.Int.{ℤ, pos, negsuc, is_int64}
use kvjet.Prelude.{true}
use kvjet.Prelude.Outcome.{ok}
use kvjet.Resp.Value.{Value, simple, bulk, error, integer}
use kvjet.Resp.Parser.{RespState, read_line, read_bulk, step, append, minus_one}
use kvjet.Resp.Parser.Digits.{at, append-positive, append-negative}

module _ (stack : List RespState) (queue : List Value) where
  step-simple :
      (acc : Bytes) (c : ℕ)
      → c ≢ 13
      → step (at read_line (simple acc) 0 stack queue) c
        ≡ ok (at read_line (simple (acc ++ c ∷ [])) 0 stack queue)
  unfolding step
  step-simple acc c h = ground arith

  step-error :
      (acc : Bytes) (c : ℕ)
      → c ≢ 13
      → step (at read_line (error acc) 0 stack queue) c
        ≡ ok (at read_line (error (acc ++ c ∷ [])) 0 stack queue)
  unfolding step
  step-error acc c h = ground arith

  step-bulk :
      (acc : Bytes) (c total : ℕ)
      → length acc < total
      → step (at read_bulk (bulk (some acc)) total stack queue) c
        ≡ ok (at read_bulk (bulk (some (acc ++ c ∷ []))) total stack queue)
  unfolding step
  step-bulk acc c total h = ground arith

  pub append-simple :
      (s acc : Bytes)
      → IsLine s
      → append s (at read_line (simple acc) 0 stack queue)
        ≡ ok (at read_line (simple (acc ++ s)) 0 stack queue)
  unfolding append
  append-simple [] acc h = rw append-nil
  append-simple (c ∷ s) acc h =
      rw (step-simple acc c h.0, append-simple s (acc ++ c ∷ []) h.1, append_assoc)

  pub append-error :
      (s acc : Bytes)
      → IsLine s
      → append s (at read_line (error acc) 0 stack queue)
        ≡ ok (at read_line (error (acc ++ s)) 0 stack queue)
  unfolding append
  append-error [] acc h = rw append-nil
  append-error (c ∷ s) acc h =
      rw (step-error acc c h.0, append-error s (acc ++ c ∷ []) h.1, append_assoc)

  pub append-bulk :
      (s acc : Bytes) (total : ℕ)
      → length acc + length s ≡ total
      → append s (at read_bulk (bulk (some acc)) total stack queue)
        ≡ ok (at read_bulk (bulk (some (acc ++ s))) total stack queue)
  unfolding append
  append-bulk [] acc total h = rw append-nil
  append-bulk (c ∷ s) acc total h =
      let longer : length (acc ++ c ∷ []) + length s ≡ total =
        omega (arith, h, length-append acc (c ∷ [])) in
      rw (
        step-bulk acc c total (omega arith),
        append-bulk s (acc ++ c ∷ []) total longer,
        append_assoc,
      )

  step-sign :
      step (at read_line (integer (pos 0)) 0 stack queue) b'-'
      ≡ ok (at read_line (integer (pos 0)) minus_one stack queue)
  unfolding step
  step-sign = refl

  -- An integer in range is read back, and `total` holds a sign.
  pub append-integer :
      (n : ℤ)
      → is_int64 n ≡ true
      → (t : ℕ) × (append (to_string_ℤ n) (at read_line (integer (pos 0)) 0 stack queue)
          ≡ ok (at read_line (integer n) t stack queue))
  unfolding to_string_ℤ append
  append-integer (pos n) h = (1, append-positive stack queue n (ltb→lt _ _ h))
  append-integer (negsuc n) h =
      let fits = ltb→lt n (2 ^ 63) h in
      (minus_one, rw step-sign (append-negative stack queue (suc n) (omega arith)))
