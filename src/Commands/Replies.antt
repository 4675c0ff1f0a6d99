-- ===== src/Commands/Replies.antt =====
-- server/Handler: what the commands answer and do, in terms of one map from keys to values.
use kvjet.Prelude.{
  is_some, ℕ, [], ◌∷◌, Option, none, some, Bytes, codes, ◌=ᵇ◌, Option-cases, inl, inr,
  if◌then◌else◌, ◌≡◌, refl, sym, ◌∙◌, ap,
}
use kvjet.Prelude.Outcome.{ok, Returns}
use kvjet.Resp.Value.{Value, simple, bulk, error, integer, nil_array, array, nil, cons}
use kvjet.Resp.Encoder.{encode}
use kvjet.Store.KvStore.{KvStore, get_value, get}
use kvjet.Store.KvStore.View.{IsStore, HasRoomFor, OnStore, view}
use kvjet.Store.KvStore.Calls.{set-OnStore, get-OnStore, del-OnStore}
use kvjet.Commands.{handle_no_aof, truth}

-- The commands, with the requests that carry them.
pub data Command : Type 0 where
  get_key : Bytes → Command
  set_key : Bytes → Value → Command
  del_key : Bytes → Command
  exist_key : Bytes → Command

abbrev pub key_of : Command → Bytes
key_of (get_key k) = k
key_of (set_key k v) = k
key_of (del_key k) = k
key_of (exist_key k) = k

abbrev pub request : Command → Value
request (get_key k) = array (cons (simple (codes "GET")) (cons (simple k) nil))
request (set_key k v) = array (cons (simple (codes "SET")) (cons (simple k) (cons v nil)))
request (del_key k) = array (cons (simple (codes "DEL")) (cons (simple k) nil))
request (exist_key k) = array (cons (simple (codes "EXIST")) (cons (simple k) nil))

-- The answer, from what the store has for the key.
abbrev found_value : Option Value → Value
found_value none = bulk none
found_value (some v) = v

abbrev pub reply : Command → Option Value → Value
reply (get_key k) o = found_value o
reply (set_key k v) o = simple (codes "OK")
reply (del_key k) o = truth (is_some o)
reply (exist_key k) o = truth (is_some o)

-- What becomes of the value of each key.
abbrev pub effect : Command → Bytes → Option Value → Option Value
effect (get_key k) other o = o
effect (set_key k v) other o = if other =ᵇ k then some v else o
effect (del_key k) other o = if other =ᵇ k then none else o
effect (exist_key k) other o = o

-- No encoding is empty.
encode-cons : (v : Value) → (c : ℕ) × (cs : Bytes) × (encode v ≡ c ∷ cs)
unfolding encode
encode-cons (simple s) = (_, _, refl)
encode-cons (error s) = (_, _, refl)
encode-cons (integer n) = (_, _, refl)
encode-cons (bulk none) = (_, _, refl)
encode-cons (bulk (some s)) = (_, _, refl)
encode-cons nil_array = (_, _, refl)
encode-cons (array vs) = (_, _, refl)

get_value-none :
    (k : Bytes) (s : KvStore Value) (r : Option Value × KvStore Value)
    → get k s ≡ ok r
    → r.0 ≡ none
    → get_value encode k s ≡ ok ([], r.1)
unfolding get_value
get_value-none k s r e h = rw (e, h) refl

get_value-some :
    (k : Bytes) (s : KvStore Value) (r : Option Value × KvStore Value) (v : Value)
    → get k s ≡ ok r
    → r.0 ≡ some v
    → get_value encode k s ≡ ok (encode v, r.1)
unfolding get_value
get_value-some k s r v e h = rw (e, h) refl

-- In a store whose tables are valid and have empty slots left, each command returns; its answer and its
-- effect are those of the specification.
pub handle_no_aof-OnStore :
    (dflt : Value) (c : Command) (s : KvStore Value)
    → IsStore dflt s
    → HasRoomFor dflt (key_of c) s
    → Returns
        (handle_no_aof dflt (request c) s)
        (OnStore dflt (λ answer. answer ≡ encode (reply c (view dflt s (key_of c)))) (effect c) s)
unfolding handle_no_aof ◌=ᵇ◌
handle_no_aof-OnStore dflt (set_key k v) s store room =
    let r = set-OnStore dflt k v s store room in
    (
      (encode (simple (codes "OK")), r.0.1),
      rw r.1 refl,
      record { store = r.2.store; answer = refl; maps = r.2.maps },
    )
handle_no_aof-OnStore dflt (del_key k) s store room =
    let r = del-OnStore dflt k s store room in
    (
      (encode (truth r.0.0), r.0.1),
      rw r.1 refl,
      record { store = r.2.store; answer = ap (λ b. encode (truth b)) r.2.answer; maps = r.2.maps },
    )
handle_no_aof-OnStore dflt (get_key k) s store room =
    let r = get-OnStore dflt k s store room in
    elim (Option-cases r.0.0) [
      | inl e ↦ (
        (encode (bulk none), r.0.1),
        rw (get_value-none k s r.0 r.1 e) refl,
        record {
          store = r.2.store;
          answer = ap (λ o. encode (found_value o)) (sym e ∙ r.2.answer);
          maps = r.2.maps;
        },
      )
      | inr (v, e) ↦
          let (c, cs, text) = encode-cons v in
          (
            (c ∷ cs, r.0.1),
            rw (get_value-some k s r.0 v r.1 e, text) refl,
            record {
              store = r.2.store;
              answer = sym text ∙ ap (λ o. encode (found_value o)) (sym e ∙ r.2.answer);
              maps = r.2.maps;
            },
          )
    ]
handle_no_aof-OnStore dflt (exist_key k) s store room =
    let r = get-OnStore dflt k s store room in
    (
      (encode (truth (is_some r.0.0)), r.0.1),
      rw r.1 refl,
      record {
        store = r.2.store;
        answer = ap (λ o. encode (truth (is_some o))) r.2.answer;
        maps = r.2.maps;
      },
    )
