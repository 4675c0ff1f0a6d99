-- ===== src/Cluster/Timeouts.antt =====
-- util/Cluster: what `checkTimeouts` leaves of a node that has been silent.
use kvjet.Prelude.{ℕ, none, ◌≡◌, ◌≢◌, All}
use kvjet.Prelude.Assoc.{Assoc, find}
use kvjet.Cluster.{Cluster, del_node_to_hash, del_topo_node}

-- No map has the node, and no point of the ring is of it.
pub record Gone (uuid : ℕ) (c : Cluster) : Type 0 where
  pub from_topo : find uuid c.topo ≡ none
  pub from_connections : find uuid c.connections ≡ none
  pub from_heartbeats : find uuid c.heartbeat_time ≡ none
  pub from_ring : All (λ p. p.1 ≢ uuid) c.node_hash

-- One round of the loop over the dead.
remove_one : ℕ → Cluster → Cluster
remove_one uuid c = del_topo_node uuid (del_node_to_hash uuid c)
