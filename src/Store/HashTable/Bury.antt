-- ===== src/Store/HashTable/Bury.antt =====
-- kvstore/HashTable: the slot of a key becomes a tombstone.
use kvjet.Prelude.{
  Bool-contra, ℕ, ◌%◌, ◌<◌, true, false, List, Option, none, some, ◌≡◌, ◌≢◌, sym, ap, ◌∙◌, inl, inr,
  Bytes, length, ◌==◌, ◌=ᵇ◌, arith, Bool-cases, if◌then◌else◌, subst, ==_iff, =ᵇ_iff, =ᵇ→eq,
  get_or-set_ne, length-set,
}
use kvjet.Prelude.{set as write}
use kvjet.Store.HashTable.{deleted, Node, empty_node, gethash}
use kvjet.Store.HashTable.Slot.{is_empty, matches, at_slot}
use kvjet.Store.HashTable.Placed.{
  lookup, home, Trail, IsPlaced, Looked, absent, present, looked, lookup_absent, lookup_present,
  at-write_self, at-write_ne, Trail-write, Trail→lt,
}
use kvjet.Store.HashTable.Write.{same_key}

matches_deleted {ℓ} :
    {V : Type ℓ} (key : Bytes) (node : Node V) → node.status ≡ deleted → matches key node ≡ true → ⊥
matches_deleted key node h g = ground (arith, h, g)

module _ {ℓ} {V : Type ℓ} (dflt : V) (bs : List (Node V)) (i : ℕ) (key : Bytes) (node : Node V)
    (placed : IsPlaced dflt bs) (holds : matches key (at_slot dflt bs i) ≡ true)
    (buried : node.status ≡ deleted) where
  inside : i < length bs
  inside = Trail→lt dflt bs _ i (placed.reached i key holds)

  abbrev pub after : List (Node V)
  after = write bs i node

  bury_cases :
      (j : ℕ) (k : Bytes)
      → matches k (at_slot dflt after j) ≡ true
      → (j ≢ i) × (matches k (at_slot dflt bs j) ≡ true)
  bury_cases j k h = elim (Bool-cases (j == i)) [
    | inl e ↦ absurd (
        matches_deleted k node buried (
          subst (λ x. matches k x ≡ true)
            (ap (at_slot dflt after) ((==_iff j i).0 e) ∙ at-write_self dflt bs i node inside) h))
    | inr e ↦ (
      ground (arith, e),
      subst (λ x. matches k x ≡ true) (at-write_ne dflt bs i node inside j e) h,
    )
  ]

  pub bury-IsPlaced : IsPlaced dflt after
  bury-IsPlaced = record {
    roomy = rw (length-set bs i node) placed.roomy;
    reached = λ j k h.
        subst (λ n. Trail dflt after (gethash k % n) j) (sym (length-set bs i node))
          (Trail-write dflt bs i node inside (home bs k) j (ap is_empty buried)
            (placed.reached j k (bury_cases j k h).1));
    unique = λ j l k h g. placed.unique j l k (bury_cases j k h).1 (bury_cases l k g).1;
  }

  bury_elsewhere :
      (k : Bytes) → (k =ᵇ key) ≡ false → {o : Option V} → Looked dflt bs k o → lookup after k ≡ o
  bury_elsewhere k other (absent lacks) = lookup_absent dflt after k λ j.
      elim (Bool-cases (matches k (at_slot dflt after j))) [
        | inr e ↦ e
        | inl h ↦ absurd (Bool-contra _ (bury_cases j k h).1 (lacks j))
      ]
  bury_elsewhere k other (present j h found) =
      let apart : j ≢ i = λ e.
        Bool-contra _
          ((=ᵇ_iff k key).1 (
            same_key (at_slot dflt bs j) k key found
              (subst (λ x. matches key (at_slot dflt bs x) ≡ true) (sym e) holds)))
          other in
      let same = get_or-set_ne bs i j node (empty_node dflt) (λ e. apart (sym e)) in
      lookup_present dflt after j k bury-IsPlaced (rw same found) ∙ ap (λ n. some n.value) same

  pub bury-lookup : (k : Bytes) → lookup after k ≡ (if k =ᵇ key then none else lookup bs k)
  bury-lookup k = elim (Bool-cases (k =ᵇ key)) [
    | inl e ↦ rw e (
        lookup_absent dflt after k λ j. elim (Bool-cases (matches k (at_slot dflt after j))) [
          | inr n ↦ n
          | inl h ↦
              let found = bury_cases j k h in
              absurd (
                found.0 (
                  placed.unique j i key
                    (subst (λ x. matches x (at_slot dflt bs j) ≡ true) (=ᵇ→eq k key e) found.1)
                    holds))
        ])
    | inr e ↦ rw e (bury_elsewhere k e (looked dflt bs k))
  ]
