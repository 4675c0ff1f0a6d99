-- ===== src/Client.antt =====
-- client/Client: the command line and the choice of a node.
pub mod Session
pub mod Requests
pub mod Moved
use kvjet.Prelude.{
  ℕ, zero, suc, ◌%◌, Bool, true, false, ◌&&◌, ◌||◌, List, [], ◌∷◌, ◌++◌, Option, none, some, Bytes,
  codes, length, get_elem?, ltb, ◌==◌, ◌=ᵇ◌, if◌then◌else◌,
}
use kvjet.Prelude.Assoc.{Assoc, insert}
use kvjet.Prelude.Outcome.{Outcome, ok, raised, undefined, ◌>>=◌, index}
use kvjet.Prelude.Words.{words}
use kvjet.Resp.Value.{Value, Items, simple, bulk, error, integer, nil_array, array, nil, cons, size}
use kvjet.Resp.Encoder.{encode}
use kvjet.Resp.Parser.{RespParser}
use kvjet.Cluster.{
  Cluster, Peer, no_fd, query_node, query_replicas, get_connection, add_topo_node, add_node_to_hash,
  add_connection,
}
use kvjet.Topology.{get_topo_v2}

-- The class.
pub record Client : Type 0 where
  pub cluster : Cluster
  pub groups : Assoc (List ℕ)
  pub connections : Assoc RespParser
  pub last_sent_fd : ℕ

abbrev usage : Bytes → Value
usage text = error (codes "Usage: " ++ text)

abbrev pub help : Bytes
help =
    codes "Commands:\n"
    ++ codes "    SET key value        Set a key-value pair\n"
    ++ codes "    GET key              Get value by key\n"
    ++ codes "    DEL key              Delete a key\n"
    ++ codes "    EXIST key           Check if key exists\n"
    ++ codes "    HELP                 Show this message\n"
    ++ codes "    EXIT                 Disconnect and exit\n\n"
    ++ codes "Examples:\n"
    ++ codes "    SET mykey hello\n"
    ++ codes "    GET mykey\n"
    ++ codes "    DEL mykey\n"
    ++ codes "    EXIST mykey"

-- A command with a key.
abbrev with_key : Bytes → Bytes → List Bytes → Value
with_key name text (key ∷ []) = array (cons (simple name) (cons (simple key) nil))
with_key name text _ = usage text

abbrev with_value : Bytes → List Bytes → Value
with_value name (key ∷ value ∷ []) =
    array (cons (simple name) (cons (simple key) (cons (bulk (some value)) nil)))
with_value name _ = usage (codes "SET key value")

abbrev of_words : Bytes → List Bytes → Value
of_words name args =
    if name =ᵇ codes "GET"
    then with_key name (codes "GET key") args
    else if name =ᵇ codes "SET"
    then with_value name args
    else if name =ᵇ codes "DEL"
    then with_key name (codes "DEL key") args
    else if name =ᵇ codes "EXIST"
    then with_key name (codes "EXIST key") args
    else if name =ᵇ codes "HELP"
    then error help
    else if name =ᵇ codes "EXIT"
    then error (codes "GoodBye.")
    else if name =ᵇ codes "GETNETWORK"
    then array (cons (simple name) nil)
    else error (codes "Unknown command. Type HELP for assistance.")

abbrev parse_words : List Bytes → Outcome Value
parse_words [] = undefined
parse_words (name ∷ args) = ok (of_words name args)

-- `handle`. A line of spaces has no first word, and `reqv[0]` reads it all the same.
unfoldable pub handle : Bytes → Outcome Value
handle line = parse_words (words line)

unfoldable pub extract_key : Value → Outcome Bytes
extract_key (array (cons _ (cons (simple key) vs))) = ok key
extract_key (array (cons _ (cons _ vs))) = raised "Key is not a SimpleString"
extract_key _ = ok []

unfoldable pub is_read_command : Bytes → Bool
is_read_command cmd = cmd =ᵇ codes "GET" || cmd =ᵇ codes "EXIST"

unfoldable pub is_write_command : Bytes → Bool
is_write_command cmd = cmd =ᵇ codes "SET" || cmd =ᵇ codes "DEL"

-- `resp.rfind(prefix, 0) == 0`
unfoldable pub starts_with : Bytes → Bytes → Bool
starts_with [] text = true
starts_with (c ∷ prefix) [] = false
starts_with (c ∷ prefix) (d ∷ text) =
    let rest = starts_with prefix text in if c == d then rest else false

unfoldable pub is_moved_response : Bytes → Bool
unfolding starts_with
is_moved_response resp = starts_with (codes "-MOVED") resp

-- The group whose first member is the master.
abbrev pub group_of_master : ℕ → Assoc (List ℕ) → Option (List ℕ)
group_of_master master [] = none
group_of_master master ((gid, []) ∷ groups) = group_of_master master groups
group_of_master master ((gid, m ∷ ms) ∷ groups) =
    let rest = group_of_master master groups in if m == master then some (m ∷ ms) else rest

-- `getReplicasForKey`; `queryReplicas` gets so many rounds, and none is left of a loop that has not
-- ended.
unfoldable pub get_replicas_for_key : ℕ → Bytes → Client → Outcome (Option (List ℕ))
get_replicas_for_key rounds key c = query_node key c.cluster >>= λ master.
    ok (elim (group_of_master master c.groups) [
      | some members ↦ some members
      | none ↦ query_replicas rounds key 2 c.cluster
    ])

-- `Cluster::randomNode`: the node of the topology at the drawn place.
unfoldable pub random_node : ℕ → Cluster → ℕ
random_node draw c = elim (get_elem? c.topo (draw % length c.topo)) [ none ↦ 0 | some p ↦ p.0 ]

-- `routeRead`, with a number that is drawn; none if the loop has not ended.
unfoldable pub route_read : ℕ → ℕ → Bytes → Client → Outcome (Option ℕ)
unfolding get_replicas_for_key random_node
route_read rounds draw key c = get_replicas_for_key rounds key c >>= λ replicas. elim replicas [
  | none ↦ ok none
  | some [] ↦ ok (some (random_node draw c.cluster))
  | some (r ∷ rs) ↦ index (r ∷ rs) (draw % length (r ∷ rs)) >>= λ uuid. ok (some uuid)
]

unfoldable pub route_write : Bytes → Client → Outcome ℕ
route_write key c = query_node key c.cluster
