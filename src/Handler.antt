-- ===== src/Handler.antt =====
-- server/Handler: the requests of clients and nodes. The commands that only touch the store are in
-- `Commands`.
pub mod Gossip
pub mod Leaving
pub mod Storing
pub mod Routing
pub mod Deletion
use kvjet.Prelude.{
  ℕ, zero, suc, ◌+◌, ◌-◌, ◌%◌, ◌^◌, Bool, true, false, ◌&&◌, ◌||◌, List, [], ◌∷◌, ◌++◌, Option,
  none, some, String, Bytes, codes, length, ltb, leb, ◌==◌, ◌=ᵇ◌, if◌then◌else◌,
}
use kvjet.Prelude.Assoc.{Assoc, find, insert}
use kvjet.Prelude.Decimal.{to_string}
use kvjet.Prelude.Int.{ℤ, pos, negsuc}
use kvjet.Prelude.Outcome.{Outcome, ok, raised, undefined, ◌>>=◌}
use kvjet.Resp.Value.{Value, Items, simple, bulk, error, integer, nil_array, array, nil, cons, size}
use kvjet.Resp.Encoder.{encode, crlf}
use kvjet.Raft.Handlers.{propose, step}
use kvjet.Store.KvStore.{KvStore, del}
use kvjet.Store.KvStore.{set as store_set}
use kvjet.Commands.{get_args, exist_args, truth}
use kvjet.Aof.{append, append_value}
use kvjet.Cluster.{
  Cluster, Peer, no_fd, query_node, is_master_for, find_gossip, add_gossip, get_connection,
  add_connection, add_node_to_hash, del_node_to_hash, add_topo_node, del_topo_node, del_connection,
  update_heartbeat, get_uuid_by_fd,
}
use kvjet.Topology.{encode_topo, to_uint64_t, get_node}
use kvjet.Server.{
  Server, Handled, done, failed, lost, crashed, after, as_fd, emplace, connect_fd, rebuild_fd,
  on_sync_done, with_group, get_group_for_key, send_data_to_node,
}

abbrev pub address : ℕ → Cluster → Bytes
address uuid c = elim (find uuid c.topo) [
  | none ↦ to_string uuid
  | some node ↦ node.ip ++ codes ":" ++ to_string node.port
]

-- The answer to a client that has asked the wrong node.
abbrev pub moved : ℕ → Cluster → Bytes
moved uuid c = encode (error (codes "MOVED " ++ address uuid c))

-- The text of a value. A bulk string without a value is read through an empty optional.
abbrev pub value_text : Value → Outcome Bytes
value_text (bulk none) = undefined
value_text (bulk (some s)) = ok s
value_text (simple s) = ok s
value_text _ = ok []

unfoldable pub propose_for : Bytes → Bytes → Server → Outcome Server
propose_for key cmd s = get_group_for_key key s >>= λ group. elim group [
  | none ↦ ok s
  | some gid ↦ with_group gid (propose cmd) s
]

-- What stands at the front of `SET` and `DEL`: another node's key is not touched.
abbrev pub at_master : Bytes → Server → (Server → Handled Bytes) → Handled Bytes
at_master key s act = after (is_master_for key s.cluster) λ mine.
    if mine then act s else after (query_node key s.cluster) λ uuid. done (moved uuid s.cluster) s

-- The members of a group as `GETNETWORK` sends them: three, with 0 for a member that is missing.
abbrev pub members_text : ℕ → List ℕ → Bytes
members_text zero members = []
members_text (suc n) [] = codes "+" ++ to_string 0 ++ crlf ++ members_text n []
members_text (suc n) (m ∷ ms) = codes "+" ++ to_string m ++ crlf ++ members_text n ms

abbrev pub groups_text : Assoc (List ℕ) → Bytes
groups_text [] = []
groups_text (g ∷ gm) =
    codes "*4" ++ crlf ++ codes "+" ++ to_string g.0 ++ crlf ++ members_text 3 g.1 ++ groups_text gm

unfoldable pub get_network : Server → Bytes
get_network s =
    codes "*2"
    ++ crlf
    ++ encode_topo s.cluster.topo
    ++ codes "*"
    ++ to_string (length s.group_members)
    ++ crlf
    ++ groups_text s.group_members

-- The loop that passes a message on to each connection.
abbrev pub broadcast : Bytes → Assoc ℕ → Server → Server
broadcast text [] s = s
broadcast text (p ∷ conn) s = broadcast text conn (emplace text (as_fd p.1) s)

-- `int uuid = u`, used as an `uint64_t` again.
abbrev pub through_int : ℕ → ℕ
through_int u = let low = u % 2 ^ 32 in if ltb low (2 ^ 31) then low else low + (2 ^ 64 - 2 ^ 32)

-- `NODEIN` once the node has been read.
abbrev join_text : Peer → Bytes
join_text node = node.ip ++ codes " " ++ to_string node.port ++ codes " " ++ to_string node.uuid

abbrev enter : Peer → Server → Server
enter node s = record s { cluster = add_topo_node node (add_node_to_hash node.uuid s.cluster) }

unfoldable pub node_joins : Peer → Server → Handled Bytes
node_joins node s =
    if get_connection node.uuid s.cluster == no_fd
    then done [] (
        emplace (codes "REBUILD_RAFTS") rebuild_fd
          (enter node (emplace (join_text node) connect_fd s)))
    else (after (send_data_to_node node.uuid (enter node s))
        λ t. done [] (emplace (codes "REBUILD_RAFTS") rebuild_fd t))

-- `NODEOUT` once the gossip is known to be new. The node's number goes through an `int`.
unfoldable pub node_leaves : Value → Server → Handled Bytes
node_leaves (simple node_id) s =
    let uuid = through_int (to_uint64_t node_id) in
    done [] (record s {
      cluster = del_connection uuid (del_topo_node uuid (del_node_to_hash uuid s.cluster));
    })
node_leaves _ s = failed "NODEOUT: node_id is not a SimpleString" s

-- The elements of a request behind `std::move(value[1])`, which leaves a null pointer there.
abbrev pub slots : Items → List (Option Value)
slots nil = []
slots (cons v vs) = some v ∷ slots vs

abbrev pub take_key : Items → List (Option Value)
take_key (cons name (cons key vs)) = some name ∷ none ∷ slots vs
take_key vs = slots vs

abbrev pub encode_slots : List (Option Value) → Outcome Bytes
encode_slots [] = ok []
encode_slots (none ∷ vs) = undefined
encode_slots (some v ∷ vs) = encode_slots vs >>= λ rest. ok (encode v ++ rest)

-- A command that only reads the store.
abbrev pub on_store : (KvStore Value → Outcome (Bytes × KvStore Value)) → Server → Handled Bytes
on_store f s = after (f s.kvstore) λ r. done r.0 (record s { kvstore = r.1 })

abbrev group_number : Value → ℕ
group_number (simple gid) = to_uint64_t gid
group_number _ = 0

abbrev pub sync_done : Items → Server → Handled Bytes
sync_done (cons _ (cons _ _)) s = done [] (on_sync_done s)
sync_done _ s = failed "SYNCDONE: missing node UUID" s

abbrev pub hello : Items → ℕ → Server → Handled Bytes
hello (cons _ (cons (simple id) nil)) fd s =
    done (encode (simple (codes "OK")))
      (record s { cluster = add_connection (to_uint64_t id) fd s.cluster })
hello (cons _ (cons _ nil)) fd s = failed "HELLO: UUID is not a SimpleString" s
hello _ fd s = failed "HELLO: Wrong number of arguments" s

abbrev pub is_raft : Bytes → Bool
is_raft c =
    c =ᵇ codes "RAFT_AE" || c =ᵇ codes "RAFT_AER" || c =ᵇ codes "RAFT_RV" || c =ᵇ codes "RAFT_RVR"

abbrev pub is_data : Bytes → Bool
is_data c = c =ᵇ codes "SET" || c =ᵇ codes "GET" || c =ᵇ codes "DEL" || c =ᵇ codes "EXIST"

abbrev pub loading : Bytes
loading = encode (error (codes "LOADING server is syncing, please retry"))

-- Reading the node throws in a state that is known.
abbrev pub read_node : Value → Server → Handled Bytes
read_node v s = elim (get_node v) [
  | ok node ↦ node_joins node s
  | raised e ↦ failed e s
  | undefined ↦ crashed
]

-- The clock is read at `now`.
module _ (now : ℕ) where
  -- A gossip that is new is remembered and passed on, then `act` goes on.
  abbrev pub gossip : Value → Bytes → (Server → Handled Bytes) → Server → Handled Bytes
  gossip request id act s =
      let uuid = to_uint64_t id in
      if find_gossip uuid s.cluster
      then done [] s
      else act (
          broadcast (encode request) s.cluster.connections
            (record s { cluster = add_gossip now uuid s.cluster }))

  abbrev pub node_in : Items → Server → Handled Bytes
  node_in (cons name (cons (simple id) (cons node nil))) s =
      gossip (array (cons name (cons (simple id) (cons node nil)))) id (read_node node) s
  node_in (cons _ (cons _ (cons _ nil))) s = failed "NODEIN: UUID is not a SimpleString" s
  node_in _ s = failed "NODEIN: Wrong number of arguments" s

  abbrev pub node_out : Items → Server → Handled Bytes
  node_out (cons name (cons (simple id) (cons node nil))) s =
      gossip (array (cons name (cons (simple id) (cons node nil)))) id (node_leaves node) s
  node_out (cons _ (cons _ (cons _ nil))) s = failed "NODEOUT:UUID is not a SimpleString" s
  node_out _ s = failed "NODEOUT: Wrong number of arguments" s

module _ (rand : ℕ → ℕ) (now : ℕ) where
  abbrev pub step_group : ℕ → Value → ℕ → Server → Handled Bytes
  step_group gid request fd s = elim (find gid s.raft_groups) [
    | none ↦ done [] s
    | some _ ↦
        let t : Server = record s { cluster = update_heartbeat now fd s.cluster } in
        after (with_group gid (step rand (get_uuid_by_fd fd t.cluster) (encode request)) t)
          (done [])
  ]

  abbrev pub handle_raft : Items → ℕ → Server → Handled Bytes
  handle_raft (cons name (cons gid rest)) fd s =
      step_group (group_number gid) (array (cons name (cons gid rest))) fd s
  handle_raft _ fd s = done [] s

-- A call reads the clock at `now` and flushes at `later`; `rand` gives its results of `std::rand`.
module _ (dflt : Value) (rand : ℕ → ℕ) (now later : ℕ) where
  abbrev pub set_at_master : Bytes → Value → Value → Server → Handled Bytes
  set_at_master key value request s = after (value_text value) λ text.
      after (propose_for key (codes "SET " ++ key ++ b' ' ∷ text) s) λ t.
        let u : Server = record t { aof = append_value now later request t.aof } in
        after (store_set dflt key value u.kvstore)
          λ r. done (encode (simple (codes "OK"))) (record u { kvstore = r.1 })

  abbrev pub handle_set : Items → Server → Handled Bytes
  handle_set (cons name (cons (simple key) (cons value nil))) s =
      at_master key s
        (set_at_master key value (array (cons name (cons (simple key) (cons value nil)))))
  handle_set (cons _ (cons _ (cons _ nil))) s = failed "SET: Key is not a SimpleString" s
  handle_set _ s = failed "SET: Wrong number of arguments" s

  -- The proposal goes out, then the request is logged as it is behind the move of its key.
  abbrev pub del_at_master : Bytes → Items → Server → Handled Bytes
  del_at_master key items s = after (propose_for key (codes "DEL " ++ key) s) λ t.
      after (encode_slots (take_key items)) λ text.
        let logged = codes "*" ++ to_string (size items) ++ crlf ++ text in
        let u : Server = record t { aof = append now later logged t.aof } in
        after (del key u.kvstore) λ r. done (encode (truth r.0)) (record u { kvstore = r.1 })

  abbrev pub handle_del : Items → Server → Handled Bytes
  handle_del (cons name (cons (simple key) nil)) s =
      at_master key s (del_at_master key (cons name (cons (simple key) nil)))
  handle_del (cons _ (cons _ nil)) s = failed "DEL: Key is not a SimpleString" s
  handle_del _ s = failed "DEL: Usage: DEL key" s

  abbrev dispatch : Bytes → Items → ℕ → Server → Handled Bytes
  dispatch command items fd s =
      if command =ᵇ codes "SYNCDONE"
      then sync_done items s
      else if command =ᵇ codes "HEARTBEAT"
      then done [] (record s { cluster = update_heartbeat now fd s.cluster })
      else if is_raft command
      then handle_raft rand now items fd s
      else if s.syncing && is_data command
      then done loading s
      else if command =ᵇ codes "GET"
      then on_store (get_args dflt items) s
      else if command =ᵇ codes "SET"
      then handle_set items s
      else if command =ᵇ codes "DEL"
      then handle_del items s
      else if command =ᵇ codes "EXIST"
      then on_store (exist_args dflt items) s
      else if command =ᵇ codes "NODEIN"
      then node_in now items s
      else if command =ᵇ codes "NODEOUT"
      then node_out now items s
      else if command =ᵇ codes "GETNETWORK"
      then done (get_network s) s
      else if command =ᵇ codes "HELLO"
      then hello items fd s
      else failed "Unknown request!!" s

  unfoldable pub handle : Value → ℕ → Server → Handled Bytes
  handle nil_array fd s = crashed
  handle (array nil) fd s = failed "Empty request!!" s
  handle (array (cons (simple command) args)) fd s =
      dispatch command (cons (simple command) args) fd s
  handle (array (cons _ args)) fd s = failed "Command is not a SimpleString!!" s
  handle (simple text) fd s = if text =ᵇ codes "OK" then done [] s else failed "Unknown request!" s
  handle _ fd s = failed "Unknown request!" s
