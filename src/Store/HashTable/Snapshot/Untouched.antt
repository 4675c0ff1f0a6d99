-- ===== src/Store/HashTable/Snapshot/Untouched.antt =====
-- kvstore/HashTable: a table without tombstones is still placed after it has been written and read.
use kvjet.Prelude.{
  ℕ, zero, suc, ◌%◌, Bool, true, false, List, [], ◌∷◌, map, Bytes, length, ◌≡◌, refl, sym, ap, ◌∙◌,
  arith, All, subst,
}
use kvjet.Resp.Value.{Value}
use kvjet.Store.HashTable.{Stat, deleted, Node, HashTable, gethash}
use kvjet.Store.HashTable.Slot.{slot, is_empty, matches, at_slot}
use kvjet.Store.HashTable.Placed.{lookup, home, Trail, IsPlaced}
use kvjet.Store.HashTable.Search.{IsValid}
use kvjet.Store.HashTable.Snapshot.Reload.{kept, reload}

abbrev pub is_deleted : Stat → Bool
is_deleted deleted = true
is_deleted _ = false

abbrev pub IsUsed : Node Value → Type 0
IsUsed node = is_deleted node.status ≡ false

module _ (dflt : Value) where
  matches-kept : (key : Bytes) (node : Node Value) → matches key (kept dflt node) ≡ matches key node
  matches-kept key node = ground arith

  is_empty-kept :
      (node : Node Value) → IsUsed node → is_empty (kept dflt node).status ≡ is_empty node.status
  is_empty-kept node h = ground arith

  length-kept : (bs : List (Node Value)) → length (map (kept dflt) bs) ≡ length bs
  length-kept [] = refl
  length-kept (node ∷ bs) = ap suc (length-kept bs)

  at_slot-kept :
      (bs : List (Node Value)) (i : ℕ)
      → at_slot dflt (map (kept dflt) bs) i ≡ kept dflt (at_slot dflt bs i)
  at_slot-kept [] i = refl
  at_slot-kept (node ∷ bs) zero = refl
  at_slot-kept (node ∷ bs) (suc i) = at_slot-kept bs i

  at_slot-IsUsed : (bs : List (Node Value)) (i : ℕ) → All IsUsed bs → IsUsed (at_slot dflt bs i)
  at_slot-IsUsed [] i h = refl
  at_slot-IsUsed (node ∷ bs) zero h = h.0
  at_slot-IsUsed (node ∷ bs) (suc i) h = at_slot-IsUsed bs i h.1

  pub lookup-kept :
      (bs : List (Node Value)) (key : Bytes) → lookup (map (kept dflt) bs) key ≡ lookup bs key
  unfolding lookup
  lookup-kept [] key = refl
  lookup-kept (node ∷ bs) key = ground (arith, lookup-kept bs key)

  module _ (bs : List (Node Value)) (used : All IsUsed bs) where
    matches_there :
        (key : Bytes) (i : ℕ)
        → matches key (at_slot dflt (map (kept dflt) bs) i) ≡ matches key (at_slot dflt bs i)
    matches_there key i =
        ap (matches key) (at_slot-kept bs i) ∙ matches-kept key (at_slot dflt bs i)

    empty_there :
        (i : ℕ)
        → is_empty (at_slot dflt (map (kept dflt) bs) i).status
          ≡ is_empty (at_slot dflt bs i).status
    empty_there i =
        ap (λ (node : Node Value). is_empty node.status) (at_slot-kept bs i)
        ∙ is_empty-kept (at_slot dflt bs i) (at_slot-IsUsed bs i used)

    Trail-kept : (raw i : ℕ) → Trail dflt bs raw i → Trail dflt (map (kept dflt) bs) raw i
    Trail-kept raw i t = record {
      steps = t.steps;
      near = omega (arith, t.near, length-kept bs);
      leads = ap (λ n. slot n raw t.steps) (length-kept bs) ∙ t.leads;
      filled = λ e h.
          ap (λ n. is_empty (at_slot dflt (map (kept dflt) bs) (slot n raw e)).status)
            (length-kept bs)
          ∙ empty_there (slot (length bs) raw e)
          ∙ t.filled e h;
    }

    pub IsPlaced-kept : IsPlaced dflt bs → IsPlaced dflt (map (kept dflt) bs)
    IsPlaced-kept p = record {
      roomy = omega (arith, p.roomy, length-kept bs);
      reached = λ i key m.
          subst (λ raw. Trail dflt (map (kept dflt) bs) raw i)
            (ap (λ n. gethash key % n) (sym (length-kept bs)))
            (Trail-kept (home bs key) i (p.reached i key (sym (matches_there key i) ∙ m)));
      unique = λ i j key m m'.
          p.unique i j key (sym (matches_there key i) ∙ m) (sym (matches_there key j) ∙ m');
    }

  -- A read table without tombstones is valid.
  pub reload-IsValid :
      (t : HashTable Value) → IsValid dflt t → All IsUsed t.buckets → IsValid dflt (reload dflt t)
  reload-IsValid t valid used = record {
    width = length-kept t.buckets ∙ valid.width;
    placed = IsPlaced-kept t.buckets used valid.placed;
  }
