-- ===== src/Resp/Parser/Digits.antt =====
-- Runs of the parser: concatenated input, and the decimal print of a number.
use kvjet.Prelude.{
  ℕ, ◌+◌, ◌-◌, ◌*◌, ◌^◌, ◌≤◌, ◌<◌, List, [], ◌∷◌, ◌++◌, ◌≡◌, refl, Bytes, none, some, arith,
}
use kvjet.Prelude.Decimal.{to_string, to_string_induction}
use kvjet.Prelude.Int.{pos, neg}
use kvjet.Prelude.Outcome.{ok, ◌>>=◌, bind_assoc}
use kvjet.Resp.Value.{Value, bulk, integer, nil_array, array, nil}
use kvjet.Resp.Parser.{
  RespState, RespParser, ParseState, read_size, read_line, minus_one, step, append,
}

-- Feeding a concatenation is feeding its parts in turn.
pub append-append :
    (xs ys : Bytes) (p : RespParser) → append (xs ++ ys) p ≡ (append xs p >>= append ys)
unfolding append
append-append [] ys p = refl
append-append (x ∷ xs) ys p = simp (bind_assoc, append-append xs ys)

abbrev pub at : ParseState → Value → ℕ → List RespState → List Value → RespParser
at s v t stack queue = record {
  state = s;
  node = record { value = v; total = t };
  stack = stack;
  queue = queue;
}

module _ (start : RespParser) (reading : ℕ → RespParser) (limit : ℕ)
    (first : (d : ℕ) → d < 10 → d ≤ limit → step start (b'0' + d) ≡ ok (reading d))
    (next : (m d : ℕ)
      → d < 10
      → 0 < m
      → m * 10 + d ≤ limit
      → step (reading m) (b'0' + d) ≡ ok (reading (m * 10 + d))) where
  append-to_string : (n : ℕ) → n ≤ limit → append (to_string n) start ≡ ok (reading n)
  unfolding append
  append-to_string n =
      to_string_induction (λ m ds. m ≤ limit → append ds start ≡ ok (reading m))
        (λ d small fits. rw (first d small fits))
        (λ m d ds small big ih fits. rw (append-append, ih (omega arith), next m d small big fits))
        n

module _ (stack : List RespState) (queue : List Value) where
  pub append-size_array :
      (n : ℕ)
      → n < 2 ^ 64
      → append (to_string n) (at read_size nil_array 0 stack queue)
        ≡ ok (at read_size (array nil) n stack queue)
  unfolding step
  append-size_array n h =
      append-to_string (at read_size nil_array 0 stack queue)
        (λ m. at read_size (array nil) m stack queue) (2 ^ 64 - 1) (λ d small fits. ground arith)
        (λ m d small big fits. ground arith) n (omega arith)

  pub append-size_bulk :
      (n : ℕ)
      → n < 2 ^ 64
      → append (to_string n) (at read_size (bulk none) 0 stack queue)
        ≡ ok (at read_size (bulk (some [])) n stack queue)
  unfolding step
  append-size_bulk n h =
      append-to_string (at read_size (bulk none) 0 stack queue)
        (λ m. at read_size (bulk (some [])) m stack queue) (2 ^ 64 - 1)
        (λ d small fits. ground arith) (λ m d small big fits. ground arith) n (omega arith)

  pub append-positive :
      (n : ℕ)
      → n < 2 ^ 63
      → append (to_string n) (at read_line (integer (pos 0)) 0 stack queue)
        ≡ ok (at read_line (integer (pos n)) 1 stack queue)
  unfolding step
  append-positive n h =
      append-to_string (at read_line (integer (pos 0)) 0 stack queue)
        (λ m. at read_line (integer (pos m)) 1 stack queue) (2 ^ 63 - 1)
        (λ d small fits. ground arith) (λ m d small big fits. ground arith) n (omega arith)

  pub append-negative :
      (n : ℕ)
      → n ≤ 2 ^ 63
      → append (to_string n) (at read_line (integer (pos 0)) minus_one stack queue)
        ≡ ok (at read_line (integer (neg n)) minus_one stack queue)
  unfolding step
  append-negative n h =
      append-to_string (at read_line (integer (pos 0)) minus_one stack queue)
        (λ m. at read_line (integer (neg m)) minus_one stack queue) (2 ^ 63)
        (λ d small fits. ground arith) (λ m d small big fits. ground arith) n (omega arith)
