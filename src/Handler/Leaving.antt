-- ===== src/Handler/Leaving.antt =====
-- server/Handler: what `NODEOUT` does to the topology.
use kvjet.Prelude.{
  ℕ, Bool, false, none, Bytes, ◌==◌, ◌≡◌, ◌<◌, ◌-◌, ◌^◌, ◌||◌, refl, ◌∙◌, ap, arith, ltb, leb,
  if◌then◌else◌, [], ◌∷◌,
}
use kvjet.Prelude.Assoc.{Assoc, find, erase, find-erase}
use kvjet.Prelude.Decimal.{to_string}
use kvjet.Resp.Value.{Value, simple}
use kvjet.Resp.Encoder.{encode}
use kvjet.Cluster.{
  Cluster, find_gossip, add_gossip, del_connection, del_topo_node, del_node_to_hash,
}
use kvjet.Topology.{to_uint64_t}
use kvjet.Topology.RoundTrip.{to_uint64_t-to_string}
use kvjet.Server.{Server, done}
use kvjet.Handler.{handle, broadcast, node_leaves, through_int}
use kvjet.Handler.Gossip.{gossip_request, handle-gossip}

-- The numbers that an `int` keeps.
abbrev pub fits_int : ℕ → Bool
fits_int u = ltb u (2 ^ 31) || leb (2 ^ 64 - 2 ^ 31) u

through_int-fits : (u : ℕ) → u < 2 ^ 64 → (through_int u == u) ≡ fits_int u
through_int-fits u h = ground arith

broadcast-topo :
    (text : Bytes) (conn : Assoc ℕ) (s : Server)
    → (broadcast text conn s).cluster.topo ≡ s.cluster.topo
broadcast-topo text [] s = refl
broadcast-topo text (p ∷ conn) s = broadcast-topo text conn _

abbrev leave : ℕ → Cluster → Cluster
leave u c = del_connection u (del_topo_node u (del_node_to_hash u c))

leave-topo : (u : ℕ) (c : Cluster) → (leave u c).topo ≡ erase u c.topo
unfolding del_connection del_topo_node del_node_to_hash
leave-topo u c = refl

-- `NODEOUT` that is new returns. The node is then out of the topology if its number fits an `int`;
-- for every other number below 2 ^ 64 the node stays in the topology as it was.
pub handle-node_out :
    (dflt : Value) (rand : ℕ → ℕ) (now later : ℕ) (id : Bytes) (u fd : ℕ) (s : Server)
    → u < 2 ^ 64
    → find_gossip (to_uint64_t id) s.cluster ≡ false
    → (t : Server) × (handle dflt rand now later
          (gossip_request false id (simple (to_string u)))
          fd
          s
        ≡ done [] t)
      × (find u t.cluster.topo ≡ (if fits_int u then none else find u s.cluster.topo))
unfolding node_leaves add_gossip
handle-node_out dflt rand now later id u fd s fits new =
    let request = gossip_request false id (simple (to_string u)) in
    let told : Server = record s { cluster = add_gossip now (to_uint64_t id) s.cluster } in
    let passed = broadcast (encode request) s.cluster.connections told in
    let gone = through_int (to_uint64_t (to_string u)) in
    let number : gone ≡ through_int u = ap through_int (to_uint64_t-to_string u fits) in
    (
      record passed { cluster = leave gone passed.cluster },
      handle-gossip dflt rand now later false id (simple (to_string u)) fd s ∙ rw new refl,
      ap (find u) (leave-topo gone passed.cluster)
          ∙ find-erase gone u passed.cluster.topo
          ∙ ap (λ x. if x == u then none else find u passed.cluster.topo) number
          ∙ ap (λ b. if b then none else find u passed.cluster.topo) (through_int-fits u fits)
          ∙ ap (λ m. if fits_int u then none else find u m)
              (broadcast-topo (encode request) s.cluster.connections told),
    )
