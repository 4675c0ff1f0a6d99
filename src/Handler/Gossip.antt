-- ===== src/Handler/Gossip.antt =====
-- server/Handler: `NODEIN` and `NODEOUT` as gossip that is passed on once.
use kvjet.Prelude.{
  String, subst, ◌&&◌, ℕ, Bool, true, false, List, [], ◌∷◌, Option, none, some, Bytes, codes, ◌==◌,
  ◌=ᵇ◌, ◌≡◌, refl, ◌<◌, length, sym, ◌∙◌, ap, if◌then◌else◌,
}
use kvjet.Prelude.Assoc.{Assoc}
use kvjet.Prelude.Int.{ℤ}
use kvjet.Prelude.Outcome.{
  Outcome, ok, raised, undefined, Ensures, Ensures-ok, Ensures-bind, Ensures-if,
}
use kvjet.Resp.Value.{Value, simple, bulk, error, integer, nil_array, array, nil, cons}
use kvjet.Resp.Encoder.{encode}
use kvjet.Cluster.{
  no_fd, get_connection, add_topo_node, add_node_to_hash, del_connection, del_topo_node,
  del_node_to_hash, Cluster, Peer, query_node, find_gossip, add_gossip, gossip_cache_size,
}
use kvjet.Cluster.Gossip.{find-add_gossip}
use kvjet.Topology.{to_uint64_t, get_node}
use kvjet.Server.{
  Server, Handled, done, failed, lost, crashed, after, emplace, as_fd, entries, send_owned,
  set_text, send_data_to_node,
}
use kvjet.Handler.{handle, broadcast, gossip, read_node, node_leaves, node_joins}

-- The gossip that a node comes or goes.
abbrev pub gossip_name : Bool → Bytes
gossip_name coming = if coming then codes "NODEIN" else codes "NODEOUT"

abbrev pub gossip_request : Bool → Bytes → Value → Value
gossip_request coming id node =
    array (cons (simple (gossip_name coming)) (cons (simple id) (cons node nil)))

-- The state that the server is left in, by a return or by a throw of the handler.
abbrev pub state_behind : Handled Bytes → Option Server
state_behind (done a t) = some t
state_behind (failed e t) = some t
state_behind (lost e) = none
state_behind crashed = none

-- What holds of that state, if there is one.
abbrev Behind : (Server → Type 0) → Handled Bytes → Type 0
Behind P h = (t : Server) → state_behind h ≡ some t → P t

done-Behind : (P : Server → Type 0) (a : Bytes) (s : Server) → P s → Behind P (done a s)
done-Behind P a s p t e = subst P (cc) p

failed-Behind : (P : Server → Type 0) (e : String) (s : Server) → P s → Behind P (failed e s)
failed-Behind P x s p t e = subst P (cc) p

if-Behind :
    (P : Server → Type 0) (b : Bool) (x y : Handled Bytes)
    → (b ≡ true → Behind P x)
    → (b ≡ false → Behind P y)
    → Behind P (if b then x else y)
if-Behind P true x y p q = p refl
if-Behind P false x y p q = q refl

after-Behind :
    {A : Type 0} (P : Server → Type 0) (m : Outcome A) (k : A → Handled Bytes)
    → ((a : A) → m ≡ ok a → Behind P (k a))
    → Behind P (after m k)
after-Behind P (ok a) k h = h a refl
after-Behind P (raised e) k h = λ t eq. cc
after-Behind P undefined k h = λ t eq. cc

-- A server with the cluster `c`, as far as its gossip goes.
abbrev SameGossip : Cluster → Server → Type 0
SameGossip c t = t.cluster.gossip_cache ≡ c.gossip_cache

send_owned-SameGossip :
    (target : ℕ) (fd : ℤ) (ps : List (Bytes × Value)) (s : Server)
    → Ensures (SameGossip s.cluster) (send_owned target fd ps s)
unfolding send_owned
send_owned-SameGossip target fd [] s = Ensures-ok (SameGossip s.cluster) s refl
send_owned-SameGossip target fd (p ∷ ps) s =
    Ensures-bind (SameGossip s.cluster) (query_node p.0 s.cluster) _
      λ owner _ t run. send_owned-SameGossip target fd ps _ t run ∙ kept (owner == target)
  where
    kept :
        (b : Bool)
        → (if b then emplace (set_text p.0 p.1) fd s else s).cluster.gossip_cache
          ≡ s.cluster.gossip_cache
    kept true = refl
    kept false = refl

send_data_to_node-SameGossip :
    (target : ℕ) (s : Server) → Ensures (SameGossip s.cluster) (send_data_to_node target s)
unfolding send_data_to_node
send_data_to_node-SameGossip target s =
    let fd = get_connection target s.cluster in
    Ensures-if (SameGossip s.cluster) (fd == no_fd) _ _
      (λ _. Ensures-ok (SameGossip s.cluster) s refl)
      (λ _.
        Ensures-bind (SameGossip s.cluster)
          (send_owned target (as_fd fd) (entries s.kvstore.shards) s) _
          λ t run.
            Ensures-ok (SameGossip s.cluster) _
              (send_owned-SameGossip target (as_fd fd) (entries s.kvstore.shards) s t run))

node_joins-SameGossip :
    (node : Peer) (s : Server) → Behind (SameGossip s.cluster) (node_joins node s)
unfolding node_joins add_topo_node add_node_to_hash
node_joins-SameGossip node s =
    if-Behind (SameGossip s.cluster) (get_connection node.uuid s.cluster == no_fd) _ _
      (λ _. done-Behind (SameGossip s.cluster) [] _ refl)
      (λ _. after-Behind (SameGossip s.cluster) (send_data_to_node node.uuid _) _ λ t run.
        done-Behind (SameGossip s.cluster) [] _ (send_data_to_node-SameGossip node.uuid _ t run))

refused-SameGossip :
    (s : Server) → Behind (SameGossip s.cluster) (failed "NODEOUT: node_id is not a SimpleString" s)
refused-SameGossip s =
    failed-Behind (SameGossip s.cluster) "NODEOUT: node_id is not a SimpleString" s refl

node_leaves-SameGossip :
    (node : Value) (s : Server) → Behind (SameGossip s.cluster) (node_leaves node s)
unfolding node_leaves del_connection del_topo_node del_node_to_hash
node_leaves-SameGossip (simple id) s = done-Behind (SameGossip s.cluster) [] _ refl
node_leaves-SameGossip (bulk x) s = refused-SameGossip s
node_leaves-SameGossip (error x) s = refused-SameGossip s
node_leaves-SameGossip (integer n) s = refused-SameGossip s
node_leaves-SameGossip nil_array s = refused-SameGossip s
node_leaves-SameGossip (array vs) s = refused-SameGossip s

joined-SameGossip :
    (m : Outcome Peer) (s : Server)
    → Behind
        (SameGossip s.cluster)
        (elim m [ ok node ↦ node_joins node s | raised e ↦ failed e s | undefined ↦ crashed ])
joined-SameGossip (ok node) s = node_joins-SameGossip node s
joined-SameGossip (raised x) s = failed-Behind (SameGossip s.cluster) x s refl
joined-SameGossip undefined s = λ t e. cc

abbrev pub act : Bool → Value → Server → Handled Bytes
act coming node s = if coming then read_node node s else node_leaves node s

act-SameGossip :
    (coming : Bool) (node : Value) (s : Server) → Behind (SameGossip s.cluster) (act coming node s)
act-SameGossip true node s = joined-SameGossip (get_node node) s
act-SameGossip false node s = node_leaves-SameGossip node s

broadcast-SameGossip :
    (text : Bytes) (conn : Assoc ℕ) (s : Server)
    → (broadcast text conn s).cluster.gossip_cache ≡ s.cluster.gossip_cache
broadcast-SameGossip text [] s = refl
broadcast-SameGossip text (p ∷ conn) s = broadcast-SameGossip text conn _

find_gossip-cache :
    (uuid : ℕ) (c d : Cluster)
    → c.gossip_cache ≡ d.gossip_cache
    → find_gossip uuid c ≡ find_gossip uuid d
unfolding find_gossip
find_gossip-cache uuid c d e = rw (e, find_gossip) refl

and_false : (b : Bool) → (b && false) ≡ false
and_false true = refl
and_false false = refl

module _ (dflt : Value) (rand : ℕ → ℕ) (now later : ℕ) where
  pub handle-gossip :
      (coming : Bool) (id : Bytes) (node : Value) (fd : ℕ) (s : Server)
      → handle dflt rand now later (gossip_request coming id node) fd s
        ≡ gossip now (gossip_request coming id node) id (act coming node) s
  unfolding handle ◌=ᵇ◌
  handle-gossip true id node fd s = rw (and_false s.syncing) refl
  handle-gossip false id node fd s = rw (and_false s.syncing) refl

  -- Behind a gossip its number is known.
  gossip-known :
      (coming : Bool) (id : Bytes) (node request : Value) (s : Server)
      → length s.cluster.gossip_cache < gossip_cache_size
      → Behind
          (λ t. find_gossip (to_uint64_t id) t.cluster ≡ true)
          (gossip now request id (act coming node) s)
  gossip-known coming id node request s room =
      let uuid = to_uint64_t id in
      let Known : Server → Type 0 = λ t. find_gossip uuid t.cluster ≡ true in
      let told : Server = record s { cluster = add_gossip now uuid s.cluster } in
      if-Behind Known (find_gossip uuid s.cluster) _ _ (λ seen. done-Behind Known [] s seen)
        λ _ t e.
          find_gossip-cache uuid t.cluster (add_gossip now uuid s.cluster) (
            act-SameGossip coming node (broadcast (encode request) s.cluster.connections told) t e
            ∙ broadcast-SameGossip (encode request) s.cluster.connections told)
          ∙ find-add_gossip now uuid s.cluster room

-- A gossip is carried out and passed on once: if the cache has room, the same `NODEIN` or `NODEOUT`,
-- whoever sends it next and whenever, is answered with nothing and changes nothing, however the first
-- one ended.
pub handle-gossip_again :
    (dflt : Value) (rand : ℕ → ℕ) (now later : ℕ) (coming : Bool) (id : Bytes) (node : Value)
    (fd fd₁ now₁ later₁ : ℕ) (s t : Server)
    → length s.cluster.gossip_cache < gossip_cache_size
    → state_behind (handle dflt rand now later (gossip_request coming id node) fd s) ≡ some t
    → handle dflt rand now₁ later₁ (gossip_request coming id node) fd₁ t ≡ done [] t
handle-gossip_again dflt rand now later coming id node fd fd₁ now₁ later₁ s t room e =
    let known =
      gossip-known dflt rand now later coming id node (gossip_request coming id node) s room t
        (ap state_behind (sym (handle-gossip dflt rand now later coming id node fd s)) ∙ e) in
    handle-gossip dflt rand now₁ later₁ coming id node fd₁ t ∙ rw known refl
