-- ===== src/Handler/Deletion.antt =====
-- server/Handler: `DEL` at the master of its key.
use kvjet.Prelude.{
  String, ◌≢◌, ℕ, zero, suc, Bool, true, false, Bytes, codes, List, [], ◌∷◌, ◌=ᵇ◌, ◌≡◌, ◌++◌,
  Option, none, some, refl, if◌then◌else◌,
}
use kvjet.Prelude.Outcome.{Outcome, index, ok, raised, undefined, ◌>>=◌}
use kvjet.Prelude.Assoc.{Assoc, find, insert, lower_bound}
use kvjet.Resp.Value.{Value}
use kvjet.Raft.Node.{RaftNode, send_append_entries}
use kvjet.Raft.Handlers.{propose, send_all}
use kvjet.Cluster.{Cluster, query_node, first, point_of, hash_string}
use kvjet.Commands.Replies.{del_key, request}
use kvjet.Server.{Server, Handled, crashed, after, raft_send_all, with_group, get_group_for_key}
use kvjet.Handler.{handle, propose_for}
use kvjet.Handler.Routing.{is_master_for_self}

-- A call that throws nothing: it returns or is undefined.
abbrev NoThrow : {A : Type 0} → Outcome A → Type 0
NoThrow m = (e : String) → m ≢ raised e

bind-NoThrow :
    {A B : Type 0} (m : Outcome A) (f : A → Outcome B)
    → NoThrow m
    → ((a : A) → NoThrow (f a))
    → NoThrow (m >>= f)
bind-NoThrow (ok a) f h k e eq = k a e eq
bind-NoThrow (raised x) f h k e eq = absurd (h x refl)
bind-NoThrow undefined f h k e eq = cc

ok-NoThrow : {A : Type 0} (a : A) → NoThrow (ok a)
ok-NoThrow a e eq = cc

if-NoThrow :
    {A : Type 0} (b : Bool) (x y : Outcome A) → NoThrow x → NoThrow y → NoThrow (if b then x else y)
if-NoThrow true x y p q = p
if-NoThrow false x y p q = q

index-NoThrow : {A : Type 0} (xs : List A) (i : ℕ) → NoThrow (index xs i)
index-NoThrow [] i e eq = cc
index-NoThrow (x ∷ xs) zero e eq = cc
index-NoThrow (x ∷ xs) (suc i) e eq = index-NoThrow xs i e eq

send_append_entries-NoThrow : (n : RaftNode) (p : ℕ) → NoThrow (send_append_entries n p)
unfolding send_append_entries
send_append_entries-NoThrow n p =
    if-NoThrow _ (ok n) _ (ok-NoThrow n)
      (bind-NoThrow (index n.next_index _) _ (index-NoThrow n.next_index _) λ _. ok-NoThrow _)

send_all-NoThrow : (ps : List ℕ) (n : RaftNode) → NoThrow (send_all ps n)
unfolding send_all
send_all-NoThrow [] n = ok-NoThrow n
send_all-NoThrow (p ∷ ps) n =
    bind-NoThrow (send_append_entries n p) (send_all ps) (send_append_entries-NoThrow n p)
      (send_all-NoThrow ps)

propose-NoThrow : (cmd : Bytes) (n : RaftNode) → NoThrow (propose cmd n)
unfolding propose
propose-NoThrow cmd n = if-NoThrow _ (ok n) _ (ok-NoThrow n) (send_all-NoThrow _ _)

query_node-NoThrow : (key : Bytes) (c : Cluster) → NoThrow (query_node key c)
unfolding query_node
query_node-NoThrow key c =
    bind-NoThrow (point_of (hash_string key) c.node_hash) _
      (point_of-NoThrow (lower_bound (hash_string key) c.node_hash) c.node_hash) λ _. ok-NoThrow _
  where
    first-NoThrow : (m : Assoc ℕ) → NoThrow (first m)
    first-NoThrow [] e eq = cc
    first-NoThrow (p ∷ m) e eq = cc

    point_of-NoThrow :
        (o : Option (ℕ × ℕ)) (m : Assoc ℕ) → NoThrow (elim o [ none ↦ first m | some p ↦ ok p ])
    point_of-NoThrow none m = first-NoThrow m
    point_of-NoThrow (some p) m = ok-NoThrow p

propose_for-NoThrow : (key cmd : Bytes) (s : Server) → NoThrow (propose_for key cmd s)
unfolding propose_for with_group get_group_for_key
propose_for-NoThrow key cmd s =
    bind-NoThrow (query_node key s.cluster >>= λ owner. ok (find owner s.master_to_group)) _
      (bind-NoThrow (query_node key s.cluster) _ (query_node-NoThrow key s.cluster)
        λ _. ok-NoThrow _)
      each
  where
    within :
        (gid : ℕ) (o : Option RaftNode)
        → NoThrow (elim o [
          | none ↦ ok s
          | some n ↦ propose cmd n >>= λ m. ok (
              raft_send_all m.sent
                (record s { raft_groups = insert gid (record m { sent = [] }) s.raft_groups }))
        ])
    within gid none = ok-NoThrow s
    within gid (some n) = bind-NoThrow (propose cmd n) _ (propose-NoThrow cmd n) λ _. ok-NoThrow _

    each :
        (group : Option ℕ)
        → NoThrow (elim group [ none ↦ ok s | some gid ↦ with_group gid (propose cmd) s ])
    each none = ok-NoThrow s
    each (some gid) = within gid (find gid s.raft_groups)

-- What is undefined in the end is undefined, whatever has gone out before.
after-crashed :
    {A B : Type 0} (m : Outcome A) (k : A → Handled B)
    → NoThrow m
    → ((a : A) → k a ≡ crashed)
    → after m k ≡ crashed
after-crashed (ok a) k h e = e a
after-crashed (raised x) k h e = absurd (h x refl)
after-crashed undefined k h e = refl

-- `DEL` is undefined behaviour at the master of its key, in every state of a server that is not
-- waiting for data.
pub handle-del_crashed :
    (dflt : Value) (rand : ℕ → ℕ) (now later : ℕ) (key : Bytes) (fd : ℕ) (s : Server)
    → s.syncing ≡ false
    → query_node key s.cluster ≡ ok s.cluster.self_node.uuid
    → handle dflt rand now later (request (del_key key)) fd s ≡ crashed
unfolding handle ◌=ᵇ◌
handle-del_crashed dflt rand now later key fd s h e =
    rw (h, is_master_for_self key s.cluster e)
      (after-crashed (propose_for key (codes "DEL " ++ key) _) _ (propose_for-NoThrow key _ _)
        λ t. refl)
