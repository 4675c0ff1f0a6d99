-- ===== src/Store/HashTable/Vacancy.antt =====
-- kvstore/HashTable: with an empty slot left, `find` returns.
use native.Mathlib.Nat.{mod-lt, mod-eq_of_lt, add-mod_right}
use kvjet.Prelude.{
  Bool-contra, ℕ, zero, suc, ◌+◌, ◌-◌, ◌%◌, ◌<◌, ◌≤◌, true, List, [], ◌∷◌, none, some, ◌≡◌, refl,
  ap, ◌∙◌, inl, inr, Bytes, length, arith, Bool-cases, if◌then◌else◌, ltb, ltb→lt, replicate,
}
use kvjet.Prelude.{set as write}
use kvjet.Prelude.Outcome.{Outcome, ok}
use kvjet.Store.HashTable.{is_occupied, Node, empty_node, HashTable, find}
use kvjet.Store.HashTable.Slot.{slot, is_empty, at_slot}
use kvjet.Store.HashTable.Probe.{Ending, hit, free, full, Full}
use kvjet.Store.HashTable.Placed.{lookup, home, lookup_absent, lookup_present, Target, Trail→lt}
use kvjet.Store.HashTable.Search.{IsValid, find-Ending, Hit-Target, Free-Target, Free-nowhere}

-- How many slots are empty.
unfoldable pub empties {ℓ} : {V : Type ℓ} → List (Node V) → ℕ
empties [] = 0
empties (node ∷ bs) = let rest = empties bs in if is_empty node.status then suc rest else rest

slot_onto : (n raw i : ℕ) → raw < n → i < n → (d : ℕ) × (d < n) × (slot n raw d ≡ i)
slot_onto n raw i h g = elim (Bool-cases (ltb i raw)) [
  | inl e ↦
      let low : i < raw = ltb→lt i raw e in
      (i + n - raw, omega arith, ap (λ x. x % n) (omega arith) ∙ add-mod_right i n ∙ mod-eq_of_lt g)
  | inr e ↦
      let high : raw ≤ i = ground (arith, e) in
      (i - raw, omega arith, ap (λ x. x % n) (omega arith) ∙ mod-eq_of_lt g)
]

module _ {ℓ} {V : Type ℓ} (dflt : V) where
  pub empties-write :
      (bs : List (Node V)) (i : ℕ) (node : Node V) → empties bs ≤ suc (empties (write bs i node))
  unfolding empties
  empties-write [] i node = omega arith
  empties-write (x ∷ bs) zero node = ground arith
  empties-write (x ∷ bs) (suc i) node = ground (arith, empties-write bs i node)

  pub empties-replicate : (n : ℕ) → empties (replicate n (empty_node dflt)) ≡ n
  unfolding empties
  empties-replicate zero = refl
  empties-replicate (suc n) = ap suc (empties-replicate n)

  vacancy :
      (bs : List (Node V))
      → 0 < empties bs
      → (i : ℕ) × (i < length bs) × (is_empty (at_slot dflt bs i).status ≡ true)
  unfolding empties
  vacancy [] h = absurd (omega arith)
  vacancy (x ∷ bs) h = elim (Bool-cases (is_empty x.status)) [
    | inl e ↦ (0, omega arith, e)
    | inr e ↦ let v = vacancy bs (ground (arith, e)) in (suc v.0, omega (arith, v.1), v.2)
  ]

  not-Full :
      (bs : List (Node V)) (key : Bytes) (raw : ℕ) (m : Outcome ℕ)
      → 0 < empties bs
      → raw < length bs
      → Full dflt bs key raw m
      → ⊥
  not-Full bs key raw m room start ending =
      let v = vacancy bs room in
      let s = slot_onto (length bs) raw v.0 start v.1 in
      Bool-contra _ (rw s.2 v.2) (ending.passed s.0 s.1).0

  -- What `find` returns: a slot that may take the key, and that shows what the map has for it.
  pub record Located (t : HashTable V) (key : Bytes) : Type ℓ where
    pub at : ℕ
    pub answer : find t key ≡ ok at
    pub inside : at < length t.buckets
    pub target : Target dflt t.buckets key at
    pub look : lookup t.buckets key ≡ (
        if is_occupied (at_slot dflt t.buckets at).status
        then some (at_slot dflt t.buckets at).value
        else none)

  pub find-Located :
      (t : HashTable V) (key : Bytes) → IsValid dflt t → 0 < empties t.buckets → Located t key
  find-Located t key valid room = go (find-Ending dflt t key valid)
    where
      go : Ending dflt t.buckets key (home t.buckets key) (find t key) → Located t key
      go (hit e) =
          let target = Hit-Target dflt t.buckets key valid.placed _ e in
          record {
            at = slot (length t.buckets) (home t.buckets key) e.at;
            answer = e.answer;
            inside = Trail→lt dflt t.buckets _ _ target.trail;
            target = target;
            look =
                lookup_present dflt t.buckets _ key valid.placed e.found ∙ ground (arith, e.found);
          }
      go (free e) =
          let target = Free-Target dflt t.buckets key valid.placed _ e in
          record {
            at = slot (length t.buckets) (home t.buckets key) e.use_at;
            answer = e.answer;
            inside = Trail→lt dflt t.buckets _ _ target.trail;
            target = target;
            look =
                lookup_absent dflt t.buckets key (Free-nowhere dflt t.buckets key valid.placed _ e)
                ∙ ground (arith, e.vacant);
          }
      go (full e) = absurd (not-Full t.buckets key _ _ room (mod-lt _ valid.placed.roomy) e)
