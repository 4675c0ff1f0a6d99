-- ===== src/Commands.antt =====
-- server/Handler: the commands on the store, as they are carried out when a log is replayed.
pub mod Replies
use kvjet.Prelude.{
  is_some, ℕ, zero, suc, Bool, true, false, not, List, [], ◌∷◌, Option, none, some, Bytes, codes,
  ◌==◌, ◌=ᵇ◌, if◌then◌else◌,
}
use kvjet.Prelude.Int.{ℤ, pos}
use kvjet.Prelude.Outcome.{Outcome, ok, raised, undefined, ◌>>=◌}
use kvjet.Resp.Value.{Value, Items, simple, bulk, error, integer, nil_array, array, nil, cons, size}
use kvjet.Resp.Encoder.{encode}
use kvjet.Store.KvStore.{KvStore, get_value, get, del}
use kvjet.Store.KvStore.{set as store_set}

-- `int64_t ret = b`
abbrev pub truth : Bool → Value
truth true = integer (pos 1)
truth false = integer (pos 0)

-- A command's arguments stand behind its name; `dflt` is a default-constructed value.
module _ (dflt : Value) where
  abbrev set_args : Items → KvStore Value → Outcome (Bytes × KvStore Value)
  set_args (cons _ (cons (simple key) (cons value nil))) s =
      store_set dflt key value s >>= λ r. ok (encode (simple (codes "OK")), r.1)
  set_args (cons _ (cons _ (cons _ nil))) s = raised "SET: Key is not a SimpleString"
  set_args _ s = raised "SET: Wrong number of arguments"

  abbrev pub get_args : Items → KvStore Value → Outcome (Bytes × KvStore Value)
  get_args (cons _ (cons (simple key) nil)) s = get_value encode key s >>= λ r. elim r.0 [
    | [] ↦ ok (encode (bulk none), r.1)
    | c ∷ cs ↦ ok (c ∷ cs, r.1)
  ]
  get_args (cons _ (cons _ nil)) s = raised "GET: Key is not a SimpleString"
  get_args _ s = raised "GET: Wrong number of arguments"

  abbrev del_args : Items → KvStore Value → Outcome (Bytes × KvStore Value)
  del_args (cons _ (cons (simple key) nil)) s = del key s >>= λ r. ok (encode (truth r.0), r.1)
  del_args (cons _ (cons _ nil)) s = raised "DEL_noAOF: Key is not a SimpleString"
  del_args _ s = raised "DEL_noAOF: Usage: DEL key"

  abbrev pub exist_args : Items → KvStore Value → Outcome (Bytes × KvStore Value)
  exist_args (cons _ (cons (simple key) nil)) s =
      get key s >>= λ r. ok (encode (truth (is_some r.0)), r.1)
  exist_args (cons _ (cons _ nil)) s = raised "EXIST: Key is not a SimpleString"
  exist_args _ s = raised "EXIST: Usage: EXIST key"

  -- The dispatch on the name.
  abbrev run_command : Bytes → Items → KvStore Value → Outcome (Bytes × KvStore Value)
  run_command command args s =
      if command =ᵇ codes "GET"
      then get_args args s
      else if command =ᵇ codes "SET"
      then set_args args s
      else if command =ᵇ codes "DEL"
      then del_args args s
      else if command =ᵇ codes "EXIST"
      then exist_args args s
      else raised "Unknown request!!"

  -- `handle_noAOF`. The size of an array without a value is read through an empty optional.
  unfoldable pub handle_no_aof : Value → KvStore Value → Outcome (Bytes × KvStore Value)
  handle_no_aof nil_array s = undefined
  handle_no_aof (array nil) s = raised "Empty request!!"
  handle_no_aof (array (cons (simple command) args)) s =
      run_command command (cons (simple command) args) s
  handle_no_aof (array (cons _ args)) s = raised "Command is not a SimpleString!!"
  handle_no_aof _ s = raised "Request is not an Array!!"
