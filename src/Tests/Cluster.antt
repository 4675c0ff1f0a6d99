-- ===== src/Tests/Cluster.antt =====
-- The cluster on concrete rings.
use kvjet.Prelude.{
  ℕ, List, ◌*◌, ◌<◌, [], ◌∷◌, none, some, codes, ◌≡◌, refl, arith, length, Bool-contra,
}
use kvjet.Prelude.Assoc.{insert}
use kvjet.Prelude.Outcome.{ok}
use kvjet.Cluster.{
  Cluster, construct, hash_number, hash_string, add_points, add_node_to_hash, del_node_to_hash,
  query_node, query_replicas, collect,
}
use kvjet.Cluster.Ring.{points, HasOwnPoints, query-del}
use kvjet.Cluster.Found.{owners, query_replicas_returns}
use kvjet.Cluster.Replicas.{AllIn, HasOwners, query_replicas_runs_on}

-- The node 7 has started and knows the node 9.
abbrev alone : Cluster
alone = construct 7 7801 (codes "127.0.0.1")

abbrev started : Cluster
started = record alone { heartbeat_time = insert 9 1000 [] }

abbrev pair : Cluster
pair = add_node_to_hash 9 (add_node_to_hash 7 started)

-- A ring of three points of one node: two replicas are never found.
abbrev single : Cluster
single = record alone { node_hash = add_points 3 7 7 [] }

single-HasOwners : HasOwners (7 ∷ []) single.node_hash
unfolding add_points hash_number
single-HasOwners = (refl, (refl, (refl, tt)))

single_small : 1 < length single.node_hash
unfolding add_points hash_number
single_small = omega arith

query_replicas_runs_on_example : query_replicas 1000 (codes "k") 2 single ≡ none
query_replicas_runs_on_example =
    query_replicas_runs_on 1000 (codes "k") 2 single (7 ∷ []) single-HasOwners (omega arith)
      single_small

-- With a second node two replicas are found at once.
two_found :
    query_replicas 6
      (codes "k")
      2
      (record alone { node_hash = add_points 3 9 9 (add_points 3 7 7 []) })
    ≡ some (7 ∷ 9 ∷ [])
unfolding add_points hash_number query_replicas collect hash_string construct
two_found = refl

-- One point of the node 7, and none of the node 9.
abbrev lone : Cluster
lone = record alone { node_hash = (5, 7) ∷ [] }

lone-HasOwnPoints : HasOwnPoints 9 lone
unfolding points hash_number
lone-HasOwnPoints = ((λ e. absurd (Bool-contra _ e refl)), tt)

lone_query : query_node (codes "k") lone ≡ ok 7
unfolding query_node hash_string construct
lone_query = refl

query-del_example : query_node (codes "k") (del_node_to_hash 9 lone) ≡ ok 7
query-del_example =
    query-del 9 7 (codes "k") lone lone-HasOwnPoints lone_query (λ e. omega (arith, e))

abbrev two : Cluster
two = record alone { node_hash = add_points 3 9 9 (add_points 3 7 7 []) }

two_present : AllIn (owners two.node_hash) (7 ∷ 9 ∷ [])
unfolding add_points hash_number
two_present = (refl, (refl, tt))

query_replicas_returns_example :
    (r : List ℕ) × (query_replicas (2 * length two.node_hash) (codes "k") 2 two ≡ some r)
query_replicas_returns_example =
    query_replicas_returns (codes "k") 2 two (7 ∷ 9 ∷ []) (refl, (refl, tt)) two_present
      (omega arith)
