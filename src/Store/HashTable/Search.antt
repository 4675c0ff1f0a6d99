-- ===== src/Store/HashTable/Search.antt =====
-- kvstore/HashTable: what `find` answers on a placed array.
use native.Mathlib.Nat.{mod-lt}
use kvjet.Prelude.{
  Bool-contra, ℕ, zero, suc, ◌%◌, ◌<◌, true, false, List, none, ◌≡◌, refl, sym, ap, inl, inr, Bytes,
  length, ◌==◌, arith, Bool-cases, subst, ltb, ltb→lt,
}
use kvjet.Prelude.Outcome.{Outcome}
use kvjet.Store.HashTable.{is_occupied, Node, HashTable, gethash, find, probe}
use kvjet.Store.HashTable.Slot.{slot, is_empty, matches, at_slot, slot_start}
use kvjet.Store.HashTable.Probe.{Ending, Hit, Free, Full, walk}
use kvjet.Store.HashTable.Placed.{home, IsPlaced, Target}
use kvjet.Store.HashTable.Write.{same_key}

matches_empty {ℓ} :
    {V : Type ℓ} (key : Bytes) (node : Node V)
    → is_empty node.status ≡ true
    → matches key node ≡ true
    → ⊥
matches_empty key node h g = ground (arith, h, g)

module _ {ℓ} {V : Type ℓ} (dflt : V) (bs : List (Node V)) (key : Bytes) where
  walk_all :
      (n raw : ℕ) → length bs ≡ n → raw < n → Ending dflt bs key raw (probe n bs n key raw raw none)
  walk_all zero raw e h = absurd (omega arith)
  walk_all (suc r) raw e h =
      subst (λ x. Ending dflt bs key raw (probe (suc r) bs x key raw raw none)) e
        (subst (λ x. Ending dflt bs key raw (probe (suc r) bs (length bs) key raw x none))
          (slot_start (length bs) raw (omega arith))
          (walk dflt bs key r raw 0 none (omega arith) (omega arith)
            (λ d below. absurd (omega arith)) tt))

  module _ (placed : IsPlaced dflt bs) where
    nowhere :
        ((j : ℕ) → matches key (at_slot dflt bs j) ≡ true → ⊥)
        → (j : ℕ) → matches key (at_slot dflt bs j) ≡ false
    nowhere h j = elim (Bool-cases (matches key (at_slot dflt bs j))) [
      | inl e ↦ absurd (h j e)
      | inr e ↦ e
    ]

    pub Full-nowhere :
        (m : Outcome ℕ)
        → Full dflt bs key (home bs key) m
        → (j : ℕ) → matches key (at_slot dflt bs j) ≡ false
    Full-nowhere m ending = nowhere λ j h.
        let t = placed.reached j key h in
        Bool-contra _ (subst (λ x. matches key (at_slot dflt bs x) ≡ true) (sym t.leads) h)
          (ending.passed t.steps t.near).1

    pub Free-nowhere :
        (m : Outcome ℕ)
        → Free dflt bs key (home bs key) m
        → (j : ℕ) → matches key (at_slot dflt bs j) ≡ false
    Free-nowhere m ending = nowhere λ j h.
        let t = placed.reached j key h in
        let there = subst (λ x. matches key (at_slot dflt bs x) ≡ true) (sym t.leads) h in
        elim (Bool-cases (ltb t.steps ending.at)) [
          | inl e ↦ Bool-contra _ there (ending.passed t.steps (ltb→lt t.steps ending.at e)).1
          | inr e ↦ elim (Bool-cases (ltb ending.at t.steps)) [
            | inl l ↦ Bool-contra _ ending.hole (t.filled ending.at (ltb→lt ending.at t.steps l))
            | inr l ↦
                matches_empty key (at_slot dflt bs (slot (length bs) (home bs key) ending.at))
                  ending.hole
                  (subst
                    (λ x. matches key (at_slot dflt bs (slot (length bs) (home bs key) x)) ≡ true)
                    (ground (arith, e, l)) there)
          ]
        ]

    pub Hit-Target :
        (m : Outcome ℕ) (ending : Hit dflt bs key (home bs key) m)
        → Target dflt bs key (slot (length bs) (home bs key) ending.at)
    Hit-Target m ending = record {
      trail = record {
        steps = ending.at;
        near = ending.near;
        leads = refl;
        filled = λ e h. (ending.passed e h).0;
      };
      only = λ j h. placed.unique j _ key h ending.found;
      own = λ other h.
          same_key (at_slot dflt bs (slot (length bs) (home bs key) ending.at)) other key h
            ending.found;
    }

    pub Free-Target :
        (m : Outcome ℕ) (ending : Free dflt bs key (home bs key) m)
        → Target dflt bs key (slot (length bs) (home bs key) ending.use_at)
    Free-Target m ending = record {
      trail = record {
        steps = ending.use_at;
        near = omega (arith, ending.near, ending.before);
        leads = refl;
        filled = λ e h. (ending.passed e (omega (arith, ending.before, h))).0;
      };
      only = λ j h. absurd (Bool-contra _ h (Free-nowhere m ending j));
      own = λ other h. absurd (
          vacant_matches other (at_slot dflt bs (slot (length bs) (home bs key) ending.use_at))
            ending.vacant h);
    }
      where
        vacant_matches :
            (other : Bytes) (node : Node V)
            → is_occupied node.status ≡ false
            → matches other node ≡ true
            → ⊥
        vacant_matches other node v h = ground (arith, v, h)
        -- A table whose number of buckets is `bucketsz`, with its entries placed.

pub record IsValid {ℓ} {V : Type ℓ} (dflt : V) (t : HashTable V) : Type 0 where
  pub width : length t.buckets ≡ t.bucketsz
  pub placed : IsPlaced dflt t.buckets

pub find-Ending {ℓ} :
    {V : Type ℓ} (dflt : V) (t : HashTable V) (key : Bytes)
    → IsValid dflt t
    → Ending dflt t.buckets key (home t.buckets key) (find t key)
unfolding find
find-Ending dflt t key valid =
    let start =
      walk_all dflt t.buckets key t.bucketsz (gethash key % t.bucketsz) valid.width
        (mod-lt (gethash key) (omega (arith, valid.width, valid.placed.roomy))) in
    let rooms : (t.bucketsz == 0) ≡ false = ground (arith, valid.width, valid.placed.roomy) in
    rw rooms (
      subst
        (λ x. Ending dflt t.buckets key x (
          probe t.bucketsz t.buckets t.bucketsz key (gethash key % t.bucketsz)
            (gethash key % t.bucketsz) none))
        (ap (λ n. gethash key % n) (sym valid.width)) start)
