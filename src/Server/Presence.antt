-- ===== src/Server/Presence.antt =====
-- server/Server: how a server joins a cluster and how it leaves.
use kvjet.Prelude.{
  ℕ, ◌&&◌, List, [], ◌∷◌, ◌++◌, Bytes, codes, length, ◌==◌, ◌=ᵇ◌, if◌then◌else◌, ◌≡◌, refl, ap,
}
use kvjet.Prelude.Assoc.{Assoc, insert}
use kvjet.Prelude.Decimal.{to_string}
use kvjet.Prelude.Outcome.{Outcome, ok, undefined, ◌>>=◌}
use kvjet.Resp.Value.{Value}
use kvjet.Resp.Encoder.{crlf}
use kvjet.Resp.Parser.{new}
use kvjet.Cluster.{
  Cluster, Peer, no_fd, query_node, point_of, hash_string, get_connection, add_gossip,
  add_topo_node, add_node_to_hash, add_connection, del_node_to_hash, del_topo_node, del_connection,
}
use kvjet.Topology.{encode_node, get_topo_v2}
use kvjet.Server.{Server, mark_syncing, entries, set_text}
use kvjet.Server.Loop.{hello_text}

-- The nodes of the topology that the server at `ip` and `port` has sent over `fd`.
unfoldable pub add_nodes : Bytes → ℕ → ℕ → List Peer → Cluster → Cluster
add_nodes ip port fd [] c = c
add_nodes ip port fd (node ∷ nodes) c =
    let known = add_node_to_hash node.uuid (add_topo_node node c) in
    add_nodes ip port fd nodes
      (if node.ip =ᵇ ip && node.port == port then add_connection node.uuid fd known else known)

abbrev get_network_text : Bytes
get_network_text = codes "*1" ++ crlf ++ codes "+GETNETWORK" ++ crlf

abbrev node_in_text : ℕ → Cluster → Bytes
node_in_text msg_uuid c =
    codes "*3"
    ++ crlf
    ++ codes "+NODEIN"
    ++ crlf
    ++ codes "+"
    ++ to_string msg_uuid
    ++ crlf
    ++ encode_node c.self_node

-- `joinCluster`, over a socket `fd` that has answered `GETNETWORK` with the value and `HELLO` with
-- `OK`. The number of the gossip is drawn.
unfoldable pub join_cluster : Bytes → ℕ → ℕ → ℕ → ℕ → Value → Server → Outcome Server
unfolding add_nodes
join_cluster ip port fd msg_uuid now network s = get_topo_v2 network [] >>= λ topo.
    let t = mark_syncing (length topo.0) s in
    let c = add_nodes ip port fd topo.0 t.cluster in
    ok (record t {
      cluster = add_gossip now msg_uuid c;
      sent =
          t.sent
          ++ (get_network_text, fd) ∷ (hello_text c, fd) ∷ (node_in_text msg_uuid c, fd) ∷ [];
      connections = insert fd new t.connections;
    })

abbrev node_out_text : ℕ → Cluster → Bytes
node_out_text msg_uuid c =
    codes "*3"
    ++ crlf
    ++ codes "+NODEOUT"
    ++ crlf
    ++ codes "+"
    ++ to_string msg_uuid
    ++ crlf
    ++ codes "+"
    ++ to_string c.self_node.uuid
    ++ crlf

abbrev farewells : Bytes → ℕ → Assoc ℕ → List (Bytes × ℕ)
farewells text self [] = []
farewells text self (p ∷ conns) =
    let rest = farewells text self conns in if p.0 == self then rest else (text, p.1) ∷ rest

-- The callback on each entry: it goes to its new owner, if that has a connection.
unfoldable pub migrate : Cluster → List (Bytes × Value) → Outcome (List (Bytes × ℕ))
migrate c [] = ok []
migrate c (p ∷ ps) = query_node p.0 c >>= λ owner. migrate c ps >>= λ rest. ok (
    if owner == c.self_node.uuid
    then rest
    else if get_connection owner c == no_fd
    then rest
    else (set_text p.0 p.1, get_connection owner c) ∷ rest)

-- The cluster without the server itself.
abbrev pub without_self : Cluster → Cluster
without_self c = del_topo_node c.self_node.uuid (del_node_to_hash c.self_node.uuid c)

-- `gracefulShutdown`. What is sent counts as sent, whether the socket takes it or not.
unfoldable pub graceful_shutdown : ℕ → ℕ → Server → Outcome Server
unfolding migrate
graceful_shutdown msg_uuid now s =
    let c = add_gossip now msg_uuid s.cluster in
    let left = without_self c in
    migrate left (entries s.kvstore.shards) >>= λ sets. ok (record s {
      cluster = left;
      sent =
          s.sent ++ (farewells (node_out_text msg_uuid c) c.self_node.uuid c.connections ++ sets);
    })

query_node-empty : (key : Bytes) (c : Cluster) → c.node_hash ≡ [] → query_node key c ≡ undefined
unfolding query_node
query_node-empty key c e = ap (λ m. point_of (hash_string key) m >>= λ p. ok p.1) e

migrate-alone :
    (c : Cluster) (p : Bytes × Value) (ps : List (Bytes × Value))
    → c.node_hash ≡ []
    → migrate c (p ∷ ps) ≡ undefined
unfolding migrate
migrate-alone c p ps alone = rw (query_node-empty p.0 c alone) refl

-- A server that is alone on the ring cannot be shut down with data: it takes its own points off the
-- ring and then asks the empty ring for the owner of each key, which is undefined behaviour.
pub graceful_shutdown-alone :
    (msg_uuid now : ℕ) (p : Bytes × Value) (ps : List (Bytes × Value)) (s : Server)
    → (del_node_to_hash s.cluster.self_node.uuid s.cluster).node_hash ≡ []
    → entries s.kvstore.shards ≡ p ∷ ps
    → graceful_shutdown msg_uuid now s ≡ undefined
unfolding graceful_shutdown add_gossip del_node_to_hash del_topo_node del_connection
graceful_shutdown-alone msg_uuid now p ps s alone some_entry =
    let left = without_self (add_gossip now msg_uuid s.cluster) in
    rw (some_entry, migrate-alone left p ps alone) refl
