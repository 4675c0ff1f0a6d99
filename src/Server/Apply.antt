-- ===== src/Server/Apply.antt =====
-- server/Server: the ticks of the groups, and the entries that they have committed.
use kvjet.Prelude.{
  ℕ, List, [], ◌∷◌, ◌++◌, none, some, Bytes, codes, ◌≡◌, ap, ◌∙◌, arith, if◌then◌else◌, ◌==◌,
}
use kvjet.Prelude.Assoc.{find, insert}
use kvjet.Prelude.Outcome.{Outcome, ok, undefined, ◌>>=◌}
use kvjet.Prelude.Words.{words, IsWord, words-append, words-word}
use kvjet.Resp.Value.{Value, Items, simple, array, nil, cons}
use kvjet.Raft.Message.{LogEntry, RaftMessage}
use kvjet.Raft.Node.{has_pending_apply, take_pending_apply}
use kvjet.Raft.Handlers.{tick}
use kvjet.Store.KvStore.{KvStore}
use kvjet.Commands.{handle_no_aof}
use kvjet.Commands.Replies.{request, set_key, del_key}
use kvjet.Cluster.{no_fd, get_connection}
use kvjet.Server.{Server}

abbrev pub strings : List Bytes → Items
strings [] = nil
strings (t ∷ tokens) = cons (simple t) (strings tokens)

unfoldable pub make_command : Bytes → Value
make_command cmd = array (strings (words cmd))

-- The callback of a group in the event loop, which holds `queueMutex`: to lock it again is undefined.
unfoldable pub send_locked : List RaftMessage → Server → Outcome Server
send_locked [] s = ok s
send_locked (msg ∷ msgs) s =
    let rest = send_locked msgs s in
    if get_connection msg.target s.cluster == no_fd then rest else undefined

abbrev pub tick_group : (ℕ → ℕ) → ℕ → Server → Outcome Server
tick_group rand gid s = elim (find gid s.raft_groups) [
  | none ↦ ok s
  | some n ↦ tick rand n >>= λ m.
      send_locked m.sent
        (record s { raft_groups = insert gid (record m { sent = [] }) s.raft_groups })
]

module _ (dflt : Value) where
  -- The loop over the entries that `takePendingApply` gives.
  unfoldable pub apply_entries : List LogEntry → KvStore Value → Outcome (KvStore Value)
  unfolding make_command
  apply_entries [] s = ok s
  apply_entries (entry ∷ es) s =
      handle_no_aof dflt (make_command entry.command) s >>= λ r. apply_entries es r.1

  abbrev pub apply_group : ℕ → Server → Outcome Server
  apply_group gid s = elim (find gid s.raft_groups) [
    | none ↦ ok s
    | some n ↦
        let (m, es) = take_pending_apply n in
        if has_pending_apply n
        then (apply_entries es s.kvstore >>= λ kv.
            ok (record s { kvstore = kv; raft_groups = insert gid m s.raft_groups }))
        else ok s
  ]

  -- The end of `epoll_step`: each group ticks and its entries are applied. A throw leaves `run`.
  unfoldable pub tick_groups : (ℕ → ℕ) → List ℕ → Server → Outcome Server
  unfolding apply_entries send_locked
  tick_groups rand [] s = ok s
  tick_groups rand (gid ∷ gids) s =
      tick_group rand gid s >>= apply_group gid >>= tick_groups rand gids

-- The texts that `SET` and `DEL` propose.
abbrev pub set_line : Bytes → Bytes → Bytes
set_line key text = codes "SET " ++ key ++ b' ' ∷ text

abbrev pub del_line : Bytes → Bytes
del_line key = codes "DEL " ++ key

set-IsWord : IsWord (codes "SET")
set-IsWord = record { some_char = ground arith; no_space = ground arith }

del-IsWord : IsWord (codes "DEL")
del-IsWord = record { some_char = ground arith; no_space = ground arith }

words-set_line :
    (key text : Bytes) → IsWord key → words (set_line key text) ≡ codes "SET" ∷ key ∷ words text
words-set_line key text k =
    let second : words (key ++ b' ' ∷ text) ≡ key ∷ words text = words-append key text k in
    words-append (codes "SET") (key ++ b' ' ∷ text) set-IsWord ∙ ap (◌∷◌ (codes "SET")) second

-- What is proposed for a command is applied as that command, if the key and the value are single
-- words. The value comes back as a simple string, whatever it was.
pub make_command-lines :
    (key text : Bytes)
    → IsWord key
    → IsWord text
    → (make_command (set_line key text) ≡ request (set_key key (simple text)))
      × (make_command (del_line key) ≡ request (del_key key))
unfolding make_command
make_command-lines key text k t = (
  ap (λ ws. array (strings ws))
      (words-set_line key text k ∙ ap (λ ws. codes "SET" ∷ key ∷ ws) (words-word text t)),
  ap (λ ws. array (strings ws))
      (words-append (codes "DEL") key del-IsWord ∙ ap (◌∷◌ (codes "DEL")) (words-word key k)),
)
