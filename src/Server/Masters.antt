-- ===== src/Server/Masters.antt =====
-- server/Server: the groups that `initRaftGroups` sets up, and the group of a key.
use native.Mathlib.Nat.{mod-lt, mod-eq_of_lt}
use kvjet.Prelude.{
  ℕ, ◌+◌, ◌^◌, ◌<◌, true, false, List, [], ◌∷◌, ◌==◌, ◌≡◌, sym, ◌∙◌, ap, subst, ==_refl, arith,
  length, All, get_or, Bool-cases, Bool-contra, inl, inr, some, ==_iff,
}
use kvjet.Prelude.Assoc.{Assoc, find, insert, insert-All, find-insert}
use kvjet.Prelude.Outcome.{ok_inj, index, index-get_or, Ensures, Ensures-ok, Ensures-bind}
use kvjet.Raft.Handlers.{construct}
use kvjet.Cluster.{contains}
use kvjet.Server.{Server}
use kvjet.Server.Groups.{
  cleared, keys, self_index, distinct, others, group_index, members_of_group, add_group, add_groups,
  init_raft_groups,
}
use kvjet.Server.Membership.{
  IsGroup, ring_of, node_at, ring_of-IsGroup, members_of_group-ring_of, get_or-self_index,
}

-- The maps from a master to its group and from a group to its members, the first being the master.
abbrev pub Mastered : List ℕ → Assoc ℕ → Assoc (List ℕ) → Type 0
Mastered ids masters groups =
    (owner gid : ℕ)
    → find owner masters ≡ some gid
    → (owner ≡ get_or ids gid 0) × (rest : List ℕ) × (find gid groups ≡ some (owner ∷ rest))

pub insert-Mastered :
    (ids : List ℕ) (masters : Assoc ℕ) (groups : Assoc (List ℕ)) (gi : ℕ) (rest : List ℕ)
    → Mastered ids masters groups
    → Mastered ids (insert (get_or ids gi 0) gi masters) (insert gi (get_or ids gi 0 ∷ rest) groups)
insert-Mastered ids masters groups gi rest h owner gid e =
    let master = get_or ids gi 0 in
    let looked = sym (find-insert master owner gi masters) ∙ e in
    elim (Bool-cases (master == owner)) [
      | inl same ↦
          let which : gi ≡ gid = some_inj (rw same at looked) in
          let whose : master ≡ owner = (==_iff master owner).0 same in
          (
            sym whose ∙ ap (λ x. get_or ids x 0) which,
            rest,
            ap (λ x. find x (insert gi (master ∷ rest) groups)) (sym which)
                ∙ find-insert gi gi (master ∷ rest) groups
                ∙ rw (==_refl gi) (ap (λ x. some (x ∷ rest)) whose),
          )
      | inr other ↦
          let (place, more, found) = h owner gid (rw other at looked) in
          let apart : (gi == gid) ≡ false = elim (Bool-cases (gi == gid)) [
            | inr n ↦ n
            | inl y ↦ absurd (
                Bool-contra _
                  ((==_iff master owner).1
                    (ap (λ x. get_or ids x 0) ((==_iff gi gid).0 y) ∙ sym place))
                  other)
          ] in
          (place, more, find-insert gi gid (master ∷ rest) groups ∙ rw apart found)
    ]
  where
    some_inj : {a b : ℕ} → some a ≡ some b → a ≡ b
    some_inj x = cc

pub no_groups-Mastered : (ids : List ℕ) → Mastered ids [] []
no_groups-Mastered ids owner gid e = cc

-- The groups of a server that is the node `self` of `ids`.
pub record IsGrouped (ids : List ℕ) (self : ℕ) (s : Server) : Type 0 where
  pub groups : All (λ g. IsGroup ids self g.1) s.group_members
  pub masters : Mastered ids s.master_to_group s.group_members

module _ (rand : ℕ → ℕ → ℕ) (ids : List ℕ) (self : ℕ) (own : contains self ids ≡ true)
    (fits : length ids < 2 ^ 63) where
  add_group-IsGrouped :
      (k : ℕ) (s : Server)
      → k < 3
      → IsGrouped ids self s
      → Ensures
          (IsGrouped ids self)
          (add_group rand ids self (group_index (self_index self ids) k (length ids)) s)
  unfolding add_group
  add_group-IsGrouped k s small h =
      let gi = group_index (self_index self ids) k (length ids) in
      let some_node : 0 < length ids = omega (arith, get_or-self_index self ids own) in
      let inside : gi < length ids = mod-lt _ some_node in
      let P = IsGrouped ids self in
      let first : node_at ids (gi + 0) ≡ get_or ids gi 0 =
        ap (λ x. get_or ids x 0)
          (mod-eq_of_lt {n = gi + 0} (omega (arith, inside)) ∙ omega arith) in
      Ensures-bind P (members_of_group ids gi) _ λ members run.
        let which : members ≡ ring_of ids gi =
          ok_inj (sym run ∙ members_of_group-ring_of ids gi some_node) in
        Ensures-bind P (construct (rand gi) gi self (distinct [] (others self members)) _) _
          λ node _. Ensures-bind P (index ids gi) _ λ master found.
            let whose : master ≡ get_or ids gi 0 =
              ok_inj (sym found ∙ index-get_or ids gi 0 inside) in
            let shape =
              ap (distinct []) which
              ∙ ap (λ a. a ∷ distinct (a ∷ []) (node_at ids (gi + 1) ∷ node_at ids (gi + 2) ∷ []))
                  first in
            Ensures-ok P _ (record {
              groups =
                  insert-All (λ g. IsGroup ids self g.1) gi (distinct [] members) s.group_members
                    (subst (λ m. IsGroup ids self (distinct [] m)) (sym which)
                      (ring_of-IsGroup ids self k own fits small))
                    h.groups;
              masters =
                  subst
                    (λ m.
                      Mastered ids (insert m gi s.master_to_group)
                        (insert gi (distinct [] members) s.group_members))
                    (sym whose)
                    (subst
                      (λ ms.
                        Mastered ids (insert (get_or ids gi 0) gi s.master_to_group)
                          (insert gi ms s.group_members))
                      (sym shape)
                      (insert-Mastered ids s.master_to_group s.group_members gi _ h.masters));
            })

  add_groups-IsGrouped :
      (ks : List ℕ) (s : Server)
      → All (λ k. k < 3) ks
      → IsGrouped ids self s
      → Ensures (IsGrouped ids self) (add_groups rand ids self (self_index self ids) ks s)
  unfolding add_groups
  add_groups-IsGrouped [] s small h = Ensures-ok (IsGrouped ids self) s h
  add_groups-IsGrouped (k ∷ ks) s small h =
      Ensures-bind (IsGrouped ids self)
        (add_group rand ids self (group_index (self_index self ids) k (length ids)) s) _
        λ t run. add_groups-IsGrouped ks t small.1 (add_group-IsGrouped k s small.0 h t run)

-- If the topology has the node itself and its groups can be set up, then each group has at most
-- three members, no member twice, only nodes of the topology, and the node itself. The group that
-- a key leads to is one whose first member owns the key.
pub init_raft_groups-IsGrouped :
    (rand : ℕ → ℕ → ℕ) (s : Server)
    → contains s.cluster.self_node.uuid (keys s.cluster.topo) ≡ true
    → length (keys s.cluster.topo) < 2 ^ 63
    → Ensures (IsGrouped (keys s.cluster.topo) s.cluster.self_node.uuid) (init_raft_groups rand s)
unfolding init_raft_groups
init_raft_groups-IsGrouped rand s own fits =
    let ids = keys s.cluster.topo in
    let self = s.cluster.self_node.uuid in
    let (inside, _) = get_or-self_index self ids own in
    let some_node : (length ids == 0) ≡ false = ground (arith, inside) in
    rw some_node (
      add_groups-IsGrouped rand ids self own fits (0 ∷ 1 ∷ 2 ∷ []) (cleared s)
        (omega arith, (omega arith, (omega arith, tt)))
        (record { groups = tt; masters = no_groups-Mastered ids }))
