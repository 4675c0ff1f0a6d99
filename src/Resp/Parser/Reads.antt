-- ===== src/Resp/Parser/Reads.antt =====
-- Parsing what `encode` printed for a value without elements.
use kvjet.Prelude.{
  ℕ, ◌^◌, ◌<◌, List, [], ◌∷◌, ◌++◌, ◌≡◌, refl, Bytes, length, none, some, arith, ==_refl,
}
use kvjet.Prelude.Int.{ℤ, is_int64}
use kvjet.Prelude.{true, false}
use kvjet.Prelude.Outcome.{Outcome, ok, ◌>>=◌, bind_assoc}
use kvjet.Resp.Value.{Value, simple, bulk, error, integer, nil_array, array, nil, size}
use kvjet.Resp.Encoder.{crlf, encode}
use kvjet.Resp.Parser.{
  RespState, RespParser, wait_type, read_line, wait_lf, read_bulk, step, append, push, is_pending,
}
use kvjet.Resp.Parser.Digits.{append-append, at, append-size_array, append-size_bulk}
use kvjet.Prelude.Decimal.{IsLine}
use kvjet.Resp.Parser.Lines.{append-simple, append-error, append-bulk, append-integer}

-- The size with which a finished value is pushed.
abbrev settled : Value → ℕ
settled (array vs) = size vs
settled _ = 0

pub settled-not_pending : (v : Value) → is_pending (record { value = v; total = settled v }) ≡ false
settled-not_pending (array vs) = rw ==_refl
settled-not_pending (simple s) = refl
settled-not_pending _ = refl

unfoldable pub deliver : Value → List RespState → List Value → Outcome (List RespState × List Value)
deliver v = push (record { value = v; total = settled v })

pub push-deliver :
    (s : RespState) (stack : List RespState) (queue : List Value)
    → is_pending s ≡ false
    → push s stack queue ≡ deliver s.value stack queue
unfolding deliver push
push-deliver s [] queue h = rw (h, settled-not_pending s.value)
push-deliver s (top ∷ rest) queue h = rw (h, settled-not_pending s.value)

pub deliver-nil : (v : Value) (queue : List Value) → deliver v [] queue ≡ ok ([], queue ++ v ∷ [])
unfolding deliver push
deliver-nil v queue = rw (settled-not_pending v)

-- The parser between two values; what `node` holds there is of no account.
abbrev pub ready : RespState → List RespState → List Value → RespParser
ready n stack queue = record { state = wait_type; node = n; stack = stack; queue = queue }

-- Reading `text` hands `v` on and leaves the parser ready.
abbrev pub Reads : Bytes → Value → List RespState → List Value → Type 0
Reads text v stack queue =
    (n : RespState)
    → (m : RespState) × (append text (ready n stack queue)
        ≡ (deliver v stack queue >>= λ r. ok (ready m r.0 r.1)))

module _ (v : Value) (t : ℕ) (stack : List RespState) (queue : List Value)
    (whole : is_pending (record { value = v; total = t }) ≡ false) where
  abbrev handed : Outcome RespParser
  handed = deliver v stack queue >>= λ r. ok (ready (record { value = v; total = t }) r.0 r.1)

  step-wait_lf : append (10 ∷ []) (at wait_lf v t stack queue) ≡ handed
  unfolding append step
  step-wait_lf = rw (bind_assoc, push-deliver (record { value = v; total = t }) stack queue whole)

  append-crlf_line : append crlf (at read_line v t stack queue) ≡ handed
  unfolding append step
  append-crlf_line = step-wait_lf

append-crlf_bulk :
    (s : Bytes) (stack : List RespState) (queue : List Value)
    → append crlf (at read_bulk (bulk (some s)) (length s) stack queue)
      ≡ handed (bulk (some s)) (length s) stack queue refl
unfolding append step
append-crlf_bulk s stack queue =
    rw (==_refl (length s)) (step-wait_lf (bulk (some s)) (length s) stack queue refl)

module _ (stack : List RespState) (queue : List Value) where
  pub Reads-simple : (s : Bytes) → IsLine s → Reads (encode (simple s)) (simple s) stack queue
  unfolding encode append step
  Reads-simple s h n = (
    record { value = simple s; total = 0 },
    rw (append-append, append-simple stack queue s [] h)
        (append-crlf_line (simple s) 0 stack queue refl),
  )

  pub Reads-error : (s : Bytes) → IsLine s → Reads (encode (error s)) (error s) stack queue
  unfolding encode append step
  Reads-error s h n = (
    record { value = error s; total = 0 },
    rw (append-append, append-error stack queue s [] h)
        (append-crlf_line (error s) 0 stack queue refl),
  )

  pub Reads-integer :
      (k : ℤ) → is_int64 k ≡ true → Reads (encode (integer k)) (integer k) stack queue
  unfolding encode append step
  Reads-integer k h n =
      let (t, run) = append-integer stack queue k h in
      (
        record { value = integer k; total = t },
        rw (append-append, run) (append-crlf_line (integer k) t stack queue refl),
      )

  pub Reads-bulk :
      (s : Bytes) → length s < 2 ^ 64 → Reads (encode (bulk (some s))) (bulk (some s)) stack queue
  unfolding encode append step
  Reads-bulk s h n = (
    record { value = bulk (some s); total = length s },
    rw (append-append, append-size_bulk stack queue (length s) h)
        (rw (append-append s crlf, append-bulk stack queue s [] (length s) (omega arith))
          (append-crlf_bulk s stack queue)),
  )

  pub Reads-nil_bulk : Reads (encode (bulk none)) (bulk none) stack queue
  unfolding encode append step
  Reads-nil_bulk n =
      (record { value = bulk none; total = 0 }, step-wait_lf (bulk none) 0 stack queue refl)

  pub Reads-nil_array : Reads (encode nil_array) nil_array stack queue
  unfolding encode append step
  Reads-nil_array n =
      (record { value = nil_array; total = 0 }, step-wait_lf nil_array 0 stack queue refl)

  pub Reads-empty_array : Reads (encode (array nil)) (array nil) stack queue
  unfolding encode append step
  Reads-empty_array n = (
    record { value = array nil; total = 0 },
    rw (append-append, append-size_array stack queue 0 (omega arith))
        (rw (push-deliver (record { value = array nil; total = 0 }) stack queue refl, bind_assoc)),
  )
