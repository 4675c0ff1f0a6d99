-- ===== src/Resp/Parser/RoundTrip.antt =====
-- Parsing what `encode` printed, whatever stands before and behind it and however it is cut.
use kvjet.Prelude.{
  ℕ, suc, ◌+◌, ◌^◌, ◌<◌, List, [], ◌∷◌, ◌++◌, ◌≡◌, refl, Bytes, length, none, some, arith, All,
  append_assoc, append-nil, ==_refl, ap, ◌∙◌, sym,
}
use kvjet.Prelude.Int.{is_int64}
use mathlib.Core.List.{flatten}
use kvjet.Prelude.{true}
use kvjet.Prelude.Outcome.{Outcome, ok, ◌>>=◌}
use kvjet.Resp.Value.{
  Value, Items, simple, bulk, error, integer, nil_array, array, nil, cons, size, push_back,
}
use kvjet.Resp.Encoder.{encode, encode_items}
use kvjet.Resp.Parser.{RespState, RespParser, wait_type, step, append, push, is_pending}
use kvjet.Resp.Parser.Digits.{append-append, append-size_array}
use kvjet.Prelude.Decimal.{IsLine}
use kvjet.Resp.Parser.Reads.{
  settled-not_pending, deliver, deliver-nil, ready, Reads, Reads-simple, Reads-error, Reads-integer,
  Reads-bulk, Reads-nil_bulk, Reads-nil_array, Reads-empty_array,
}

-- What a message of the protocol can carry.
unfoldable mutual
  pub IsEncodable : Value → Type 0
  IsEncodable (simple s) = IsLine s
  IsEncodable (error s) = IsLine s
  IsEncodable (integer n) = is_int64 n ≡ true
  IsEncodable (bulk none) = Unit
  IsEncodable (bulk (some s)) = length s < 2 ^ 64
  IsEncodable nil_array = Unit
  IsEncodable (array vs) = (size vs < 2 ^ 64) × AreEncodable vs

  pub AreEncodable : Items → Type 0
  AreEncodable nil = Unit
  AreEncodable (cons v vs) = IsEncodable v × AreEncodable vs

-- The elements of `ws` behind those of `vs`.
abbrev concat : Items → Items → Items
concat nil ws = ws
concat (cons v vs) ws = cons v (concat vs ws)

concat-push_back : (vs ws : Items) (w : Value) → concat (push_back vs w) ws ≡ concat vs (cons w ws)
concat-push_back nil ws w = refl
concat-push_back (cons v vs) ws w = ap (cons v) (concat-push_back vs ws w)

concat-nil : (vs : Items) → concat vs nil ≡ vs
concat-nil nil = refl
concat-nil (cons v vs) = ap (cons v) (concat-nil vs)

size-push_back : (vs : Items) (w : Value) → size (push_back vs w) ≡ suc (size vs)
size-push_back nil w = refl
size-push_back (cons v vs) w = ap suc (size-push_back vs w)

abbrev pending : Items → ℕ → RespState
pending vs k = record { value = array vs; total = k }

-- An element that does not fill the array waits on the stack; the last one hands the array on.
module _ (v : Value) (done : Items) (k : ℕ) (stack : List RespState) (queue : List Value) where
  deliver-element :
      suc (size done) < k
      → deliver v (pending done k ∷ stack) queue ≡ ok (pending (push_back done v) k ∷ stack, queue)
  unfolding deliver push
  deliver-element h = rw (settled-not_pending v, size-push_back done v) (ground arith)

  deliver-last :
      suc (size done) ≡ k
      → deliver v (pending done k ∷ stack) queue ≡ deliver (array (push_back done v)) stack queue
  unfolding deliver push
  deliver-last h =
      let full : size (push_back done v) ≡ k = size-push_back done v ∙ h in
      rw (settled-not_pending v, full, ==_refl k)

push-pending :
    (s : RespState) (stack : List RespState) (queue : List Value)
    → is_pending s ≡ true
    → push s stack queue ≡ ok (s ∷ stack, queue)
unfolding push
push-pending s [] queue h = rw h
push-pending s (top ∷ rest) queue h = rw h

-- The elements of an array that is partly read: `done` of its `k` elements are on the stack.
abbrev ReadsItems : Items → Type 0
ReadsItems vs =
    (done : Items) (k : ℕ) (stack : List RespState) (queue : List Value) (n : RespState)
    → 0 < size vs
    → size done + size vs ≡ k
    → (m : RespState) × (append (encode_items vs) (ready n (pending done k ∷ stack) queue)
        ≡ (deliver (array (concat done vs)) stack queue >>= λ r. ok (ready m r.0 r.1)))

Reads-last :
    (v : Value)
    → ((stack : List RespState) (queue : List Value) → Reads (encode v) v stack queue)
    → ReadsItems (cons v nil)
unfolding encode
Reads-last v reads done k stack queue n some_left fits =
    let (m, run) = reads (pending done k ∷ stack) queue n in
    let whole = sym (concat-push_back done nil v) ∙ concat-nil (push_back done v) in
    (m, rw (append-nil, run, whole, deliver-last v done k stack queue (omega arith)))

Reads-more :
    (v w : Value) (ws : Items)
    → ((stack : List RespState) (queue : List Value) → Reads (encode v) v stack queue)
    → ReadsItems (cons w ws)
    → ReadsItems (cons v (cons w ws))
Reads-more v w ws reads more done k stack queue n some_left fits =
    let (m, run) = reads (pending done k ∷ stack) queue n in
    let counted : size (push_back done v) + size (cons w ws) ≡ k =
      omega (arith, size-push_back done v) in
    let (m', run') = more (push_back done v) k stack queue m (omega arith) counted in
    let first = deliver-element v done k stack queue (omega arith) in
    (
      m',
      rw (← concat-push_back done (cons w ws) v)
          (unfold encode in rw (append-append (encode v), run, first) run'),
    )

Reads-array :
    (v : Value) (vs : Items) (stack : List RespState) (queue : List Value)
    → size (cons v vs) < 2 ^ 64
    → ReadsItems (cons v vs)
    → Reads (encode (array (cons v vs))) (array (cons v vs)) stack queue
unfolding append step
Reads-array v vs stack queue fits items n =
    let k = size (cons v vs) in
    let opened = push-pending (pending nil k) stack queue (ground arith) in
    let (m, run) = items nil k stack queue (pending nil k) (omega arith) (omega arith) in
    (m, unfold encode in rw (append-append, append-size_array stack queue k fits, opened) run)

mutual
  unfolding IsEncodable

  Reads-encode :
      (v : Value)
      → IsEncodable v
      → (stack : List RespState) (queue : List Value) → Reads (encode v) v stack queue
  Reads-encode (simple s) h stack queue = Reads-simple stack queue s h
  Reads-encode (error s) h stack queue = Reads-error stack queue s h
  Reads-encode (integer k) h stack queue = Reads-integer stack queue k h
  Reads-encode (bulk none) h stack queue = Reads-nil_bulk stack queue
  Reads-encode (bulk (some s)) h stack queue = Reads-bulk stack queue s h
  Reads-encode nil_array h stack queue = Reads-nil_array stack queue
  Reads-encode (array nil) h stack queue = Reads-empty_array stack queue
  Reads-encode (array (cons v vs)) h stack queue =
      Reads-array v vs stack queue h.0 (ReadsItems-encode (cons v vs) h.1)

  ReadsItems-encode : (vs : Items) → AreEncodable vs → ReadsItems vs
  ReadsItems-encode nil h = λ done k stack queue n some_left fits. absurd (omega arith)
  ReadsItems-encode (cons v nil) h = Reads-last v (Reads-encode v h.0)
  ReadsItems-encode (cons v (cons w ws)) h =
      Reads-more v w ws (Reads-encode v h.0) (ReadsItems-encode (cons w ws) h.1)

abbrev pub encode_all : List Value → Bytes
encode_all [] = []
encode_all (v ∷ vs) = encode v ++ encode_all vs

-- `append` once for each chunk, as the server calls it on what `recv` returns.
abbrev pub append_all : List Bytes → RespParser → Outcome RespParser
append_all [] p = ok p
append_all (c ∷ cs) p = append c p >>= append_all cs

pub append_all-flatten :
    (cs : List Bytes) (p : RespParser) → append_all cs p ≡ append (flatten cs) p
unfolding flatten append
append_all-flatten [] p = refl
append_all-flatten (c ∷ cs) p = rw append-append (simp (append_all-flatten cs))

append-encode_all :
    (vs : List Value) (n : RespState) (queue : List Value)
    → All IsEncodable vs
    → (m : RespState) × (append (encode_all vs) (ready n [] queue) ≡ ok (ready m [] (queue ++ vs)))
append-encode_all [] n queue h = (n, unfold append in rw append-nil)
append-encode_all (v ∷ vs) n queue h =
    let (m, run) = Reads-encode v h.0 [] queue n in
    let (m', rest) = append-encode_all vs m (queue ++ v ∷ []) h.1 in
    (m', rw (append-append, run, deliver-nil v queue) (rw append_assoc at rest))

-- A parser that waits for a message, given the encodings of some messages in chunks that are cut
-- anywhere, queues exactly these messages, in order, behind those that it holds, and waits again.
pub append_all-encode :
    (vs : List Value) (chunks : List Bytes) (p : RespParser)
    → All IsEncodable vs
    → flatten chunks ≡ encode_all vs
    → p.state ≡ wait_type
    → p.stack ≡ []
    → (q : RespParser) × (append_all chunks p ≡ ok q)
      × (q.queue ≡ p.queue ++ vs)
      × (q.state ≡ wait_type)
      × (q.stack ≡ [])
append_all-encode vs chunks p h cut idle empty =
    let (m, run) = append-encode_all vs p.node p.queue h in
    let waiting : p ≡ ready p.node [] p.queue =
      λ i. record { state = idle i; node = p.node; stack = empty i; queue = p.queue } in
    (
      ready m [] (p.queue ++ vs),
      rw (append_all-flatten, cut, ap (append (encode_all vs)) waiting) run,
      refl,
      refl,
      refl,
    )
