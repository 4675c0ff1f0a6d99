-- ===== src/Resp/Parser.antt =====
-- resp/RespParser: the byte-driven state machine with its stack of unfinished arrays.
mod Digits
mod Lines
pub mod Frame
mod Reads
pub mod RoundTrip
use kvjet.Prelude.{
  ℕ, zero, suc, ◌+◌, ◌-◌, ◌*◌, ◌%◌, ◌^◌, Bool, true, false, ◌&&◌, List, [], ◌∷◌, ◌++◌, Option, none,
  some, Bytes, length, ltb, leb, ◌==◌, if◌then◌else◌,
}
use kvjet.Prelude.Int.{ℤ, pos, push_digit, push_digit_below, is_int64}
use kvjet.Prelude.Outcome.{Outcome, ok, raised, undefined, ◌>>=◌}
use kvjet.Resp.Value.{
  Value, Items, simple, bulk, error, integer, nil_array, array, nil, size, push_back,
}

pub data ParseState : Type 0 where
  wait_type read_size wait_lfsz wait_nil wait_nil_cr read_line wait_lf read_bulk : ParseState

-- `RespState`: a value being read; `total` is its announced size, or the sign of an integer.
pub record RespState : Type 0 where
  pub value : Value
  pub total : ℕ

-- The class. The head of `stack` is the top of `stateStack`.
pub record RespParser : Type 0 where
  pub state : ParseState
  pub node : RespState
  pub stack : List RespState
  pub queue : List Value

abbrev pub size_mod : ℕ
size_mod = 2 ^ 64

-- `total = -1` on a `size_t`.
abbrev pub minus_one : ℕ
minus_one = 2 ^ 64 - 1

abbrev pub new : RespParser
new = record {
  state = wait_type;
  node = record { value = nil_array; total = 0 };
  stack = [];
  queue = [];
}

abbrev pub parser_error {ℓ} : {A : Type ℓ} → Outcome A
parser_error = raised "Parser Error!!"

-- An array whose size is not yet the announced one.
abbrev pub is_pending : RespState → Bool
is_pending s = elim s.value [ array vs ↦ if size vs == s.total then false else true | _ ↦ false ]

-- `it->value->push_back(v)`; the optional of a nil array is read without a check.
abbrev pub append_to : Value → Value → Outcome Value
append_to (array vs) v = ok (array (push_back vs v))
append_to nil_array v = undefined
append_to _ v = raised "Parser Stack Error!!"

abbrev pub is_complete : Value → ℕ → Bool
is_complete (array vs) total = size vs == total
is_complete _ total = false

-- `push`: the new stack and queue.
unfoldable pub push :
    RespState → List RespState → List Value → Outcome (List RespState × List Value)
push s [] q = if is_pending s then ok (s ∷ [], q) else ok ([], q ++ s.value ∷ [])
push s (top ∷ rest) q =
    if is_pending s
    then ok (s ∷ top ∷ rest, q)
    else append_to top.value s.value >>= λ v.
        let done = push (record { value = v; total = top.total }) rest q in
        if is_complete v top.total
        then done
        else ok (record { value = v; total = top.total } ∷ rest, q)

unfoldable pub on_wait_type : RespParser → ℕ → Outcome RespParser
on_wait_type p c =
    let start = λ (v : Value) (s : ParseState).
      let n : RespState = record { value = v; total = 0 } in
      let q : RespParser = record p { node = n; state = s } in ok q in
    if c == b'+'
    then start (simple []) read_line
    else if c == b'-'
    then start (error []) read_line
    else if c == b':'
    then start (integer (pos 0)) read_line
    else if c == b'$'
    then start (bulk none) read_size
    else if c == b'*'
    then start nil_array read_size
    else parser_error

-- The `-` of a nil size: only before any digit.
abbrev nil_size : Value → Outcome ParseState
nil_size nil_array = ok wait_nil
nil_size (bulk none) = ok wait_nil
nil_size _ = parser_error

-- The `\r` behind a size: `reserve` reads the optional without a check.
abbrev end_size : Value → Outcome ParseState
end_size (array vs) = ok wait_lfsz
end_size (bulk (some s)) = ok wait_lfsz
end_size nil_array = undefined
end_size (bulk none) = undefined
end_size _ = parser_error

-- The first digits, while `total` is 0, give the optional an empty value.
abbrev open_value : Value → ℕ → Outcome Value
open_value (array vs) total = ok (if total == 0 then array nil else array vs)
open_value nil_array total = ok (if total == 0 then array nil else nil_array)
open_value (bulk s) total = ok (if total == 0 then bulk (some []) else bulk s)
open_value _ total = parser_error

abbrev pub is_digit : ℕ → Bool
is_digit c = leb b'0' c && leb c b'9'

unfoldable pub on_read_size : RespParser → ℕ → Outcome RespParser
on_read_size p c =
    if c == b'-'
    then (nil_size p.node.value >>= λ s. ok (record p { state = s }))
    else if c == 13
    then (end_size p.node.value >>= λ s. ok (record p { state = s }))
    else if is_digit c
    then (open_value p.node.value p.node.total >>= λ v.
        let total = (p.node.total * 10 % size_mod + (c - b'0')) % size_mod in
        ok (record p { node = record { value = v; total = total } }))
    else parser_error

-- The parser with a finished value handed on.
abbrev pub hand_on : RespParser → Outcome RespParser
hand_on p = push p.node p.stack p.queue >>= λ r.
    ok (record p { stack = r.0; queue = r.1; state = wait_type })

unfoldable pub on_wait_lfsz : RespParser → ℕ → Outcome RespParser
on_wait_lfsz p c =
    if c == 10
    then elim p.node.value [
      | nil_array ↦ hand_on p
      | array vs ↦ hand_on p
      | bulk s ↦ ok (record p { state = read_bulk })
      | _ ↦ parser_error
    ]
    else parser_error

-- One digit of an integer, `total` being 1 for a positive one. A signed overflow is undefined.
abbrev pub add_digit : ℤ → ℕ → ℕ → Outcome ℤ
add_digit n total d =
    if is_int64 (push_digit n 0)
    then (let r = if total == 1 then push_digit n d else push_digit_below n d in
        if is_int64 r then ok r else undefined)
    else undefined

abbrev pub read_integer : ℤ → ℕ → ℕ → Outcome RespState
read_integer n total c =
    if c == b'-'
    then (if total == 0 then ok (record { value = integer n; total = minus_one }) else parser_error)
    else if is_digit c
    then (let sign = if total == 0 then 1 else total in
        add_digit n sign (c - b'0') >>= λ m. ok (record { value = integer m; total = sign }))
    else parser_error

abbrev pub read_char : RespState → ℕ → Outcome RespState
read_char n c = elim n.value [
  | simple s ↦ ok (record { value = simple (s ++ c ∷ []); total = n.total })
  | error s ↦ ok (record { value = error (s ++ c ∷ []); total = n.total })
  | integer k ↦ read_integer k n.total c
  | _ ↦ parser_error
]

unfoldable pub on_read_line : RespParser → ℕ → Outcome RespParser
on_read_line p c =
    if c == 13
    then ok (record p { state = wait_lf })
    else read_char p.node c >>= λ n. ok (record p { node = n })

unfoldable pub on_read_bulk : RespParser → ℕ → Outcome RespParser
on_read_bulk p c = elim p.node.value [
  | bulk (some s) ↦
      if length s == p.node.total
      then (if c == 13 then ok (record p { state = wait_lf }) else parser_error)
      else ok
          (record p { node = record { value = bulk (some (s ++ c ∷ [])); total = p.node.total } })
  | bulk none ↦ undefined
  | _ ↦ parser_error
]

-- The states that wait for one character.
abbrev expect : Bool → Outcome RespParser → Outcome RespParser
expect true p = p
expect false p = parser_error

abbrev pub step_in : ParseState → RespParser → ℕ → Outcome RespParser
step_in wait_type p c = on_wait_type p c
step_in read_size p c = on_read_size p c
step_in wait_lfsz p c = on_wait_lfsz p c
step_in wait_nil p c = expect (c == b'1') (ok (record p { state = wait_nil_cr }))
step_in wait_nil_cr p c = expect (c == 13) (ok (record p { state = wait_lf }))
step_in read_line p c = on_read_line p c
step_in wait_lf p c = expect (c == 10) (hand_on p)
step_in read_bulk p c = on_read_bulk p c

-- One round of the loop of `append`. What a throw leaves in the parser is not modelled.
unfoldable pub step : RespParser → ℕ → Outcome RespParser
unfolding on_wait_type on_read_size on_wait_lfsz on_read_line on_read_bulk
step p c = step_in p.state p c

unfoldable pub append : Bytes → RespParser → Outcome RespParser
append [] p = ok p
append (c ∷ cs) p = step p c >>= append cs

pub reset : RespParser → RespParser
reset p = new

unfoldable pub has_result : RespParser → Bool
has_result p = elim p.queue [ [] ↦ false | v ∷ vs ↦ true ]

unfoldable pub pop : RespParser → RespParser
pop p = elim p.queue [ [] ↦ p | v ∷ vs ↦ record p { queue = vs } ]

unfoldable pub get_result : RespParser → Option Value × RespParser
unfolding pop
get_result p = elim p.queue [ [] ↦ (none, p) | v ∷ vs ↦ (some v, pop p) ]
