-- ===== src/Tests/Handler.antt =====
-- Requests to a server of two nodes.
use kvjet.Prelude.{
  ℕ, ◌≤◌, true, false, [], ◌∷◌, none, codes, ◌≡◌, refl, ap, arith, length, if◌then◌else◌,
}
use kvjet.Prelude.Assoc.{find}
use kvjet.Prelude.Decimal.{to_string}
use kvjet.Prelude.Outcome.{ok}
use kvjet.Resp.Value.{simple}
use kvjet.Cluster.{add_gossip, find_gossip, gossip_cache_size, query_node, hash_string}
use kvjet.Cluster.Gossip.{add_gossip-bounded}
use kvjet.Commands.Replies.{request, del_key}
use kvjet.Topology.{to_uint64_t}
use kvjet.Server.{Server, done, crashed}
use kvjet.Handler.{handle}
use kvjet.Handler.Deletion.{handle-del_crashed}
use kvjet.Handler.Gossip.{gossip_request, state_behind, handle-gossip_again}
use kvjet.Handler.Leaving.{fits_int, handle-node_out}
use kvjet.Tests.Server.{dflt, server}
use kvjet.Store.HashTable as Table
use kvjet.Store.Lru as Recent

abbrev waiting : Server
waiting = record server { syncing = true }

abbrev rand : ℕ → ℕ
rand n = 0

-- The same server, with the point of the ring held by node 9.
abbrev reader : Server
reader = record server { cluster = record server.cluster { node_hash = (5, 9) ∷ [] } }

own_key : query_node (codes "k") server.cluster ≡ ok server.cluster.self_node.uuid
unfolding query_node hash_string
own_key = refl

handle-del_crashed_example :
    handle dflt rand 10 11 (request (del_key (codes "k"))) 5 server ≡ crashed
handle-del_crashed_example = handle-del_crashed dflt rand 10 11 (codes "k") 5 server refl own_key

new_gossip : find_gossip (to_uint64_t (codes "3")) server.cluster ≡ false
unfolding find_gossip
new_gossip = refl

-- Node 9 leaves, and the message arrives twice.
abbrev told : Server
told = (handle-node_out dflt rand 10 11 (codes "3") 9 5 server (omega arith) new_gossip).0

handle-gossip_again_example :
    handle dflt rand 20 21 (gossip_request false (codes "3") (simple (to_string 9))) 6 told
    ≡ done [] told
handle-gossip_again_example =
    handle-gossip_again dflt rand 10 11 false (codes "3") (simple (to_string 9)) 5 6 20 21 server
      told (omega arith)
      (ap state_behind
        (handle-node_out dflt rand 10 11 (codes "3") 9 5 server (omega arith) new_gossip).1)

add_gossip-bounded_example :
    length (add_gossip 10 3 server.cluster).gossip_cache ≤ gossip_cache_size
add_gossip-bounded_example = add_gossip-bounded 10 3 server.cluster (omega arith)

handle-node_out_example :
    (t : Server) × (handle dflt rand 10 11
        (gossip_request false (codes "3") (simple (to_string 9)))
        5
        server
      ≡ done [] t)
    × (find 9 t.cluster.topo ≡ (if fits_int 9 then none else find 9 server.cluster.topo))
handle-node_out_example =
    handle-node_out dflt rand 10 11 (codes "3") 9 5 server (omega arith) new_gossip
