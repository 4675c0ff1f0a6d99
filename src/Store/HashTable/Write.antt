-- ===== src/Store/HashTable/Write.antt =====
-- kvstore/HashTable: writing an entry into the slot for its key, and burying one.
use kvjet.Prelude.{
  Bool-contra, ℕ, ◌%◌, ◌<◌, true, false, List, Option, some, ◌≡◌, ◌≢◌, refl, sym, ap, ◌∙◌, ◌⊎◌, inl,
  inr, Bytes, length, ◌==◌, ◌=ᵇ◌, arith, Bool-cases, if◌then◌else◌, subst, ==_iff, =ᵇ_iff, =ᵇ→eq,
  =ᵇ_refl, length-set,
}
use kvjet.Prelude.{set as write}
use kvjet.Store.HashTable.{occupied, Node, gethash}
use kvjet.Store.HashTable.Slot.{is_empty, matches, at_slot}
use kvjet.Store.HashTable.Placed.{
  lookup, home, Trail, IsPlaced, Looked, absent, present, looked, lookup_absent, lookup_present,
  Target, at-write_self, at-write_ne, Trail-write, Trail→lt,
}

pub matches→key {ℓ} :
    {V : Type ℓ} (key : Bytes) (node : Node V) → matches key node ≡ true → node.key ≡ key
matches→key key node h = ground (arith, h, =ᵇ→eq node.key key)

pub matches_refl {ℓ} :
    {V : Type ℓ} (node : Node V) → node.status ≡ occupied → matches node.key node ≡ true
matches_refl node h = rw (h, =ᵇ_refl node.key) refl

pub same_key {ℓ} :
    {V : Type ℓ} (node : Node V) (key other : Bytes)
    → matches key node ≡ true
    → matches other node ≡ true
    → key ≡ other
same_key node key other h g = sym (matches→key key node h) ∙ matches→key other node g

-- An entry is written into a slot that may take its key.
module _ {ℓ} {V : Type ℓ} (dflt : V) (bs : List (Node V)) (i : ℕ) (node : Node V)
    (placed : IsPlaced dflt bs) (target : Target dflt bs node.key i)
    (taken : node.status ≡ occupied) where
  inside : i < length bs
  inside = Trail→lt dflt bs _ i target.trail

  abbrev pub after : List (Node V)
  after = write bs i node

  put_self : matches node.key (at_slot dflt after i) ≡ true
  put_self = rw (at-write_self dflt bs i node inside) (matches_refl node taken)

  -- Where the new array holds a key.
  put_cases :
      (j : ℕ) (key : Bytes)
      → matches key (at_slot dflt after j) ≡ true
      → ((j ≡ i) × (key ≡ node.key))
        ⊎ ((j ≢ i) × (key ≢ node.key) × (matches key (at_slot dflt bs j) ≡ true))
  put_cases j key h = elim (Bool-cases (j == i)) [
    | inl e ↦ inl (
      (==_iff j i).0 e,
      sym (
          matches→key key node (
            subst (λ x. matches key x ≡ true)
              (ap (at_slot dflt after) ((==_iff j i).0 e) ∙ at-write_self dflt bs i node inside)
              h)),
    )
    | inr e ↦
        let old = subst (λ x. matches key x ≡ true) (at-write_ne dflt bs i node inside j e) h in
        let apart : j ≢ i = ground (arith, e) in
        inr (
          apart,
          λ same.
              apart (target.only j (subst (λ k. matches k (at_slot dflt bs j) ≡ true) same old)),
          old,
        )
  ]

  home-after : (key : Bytes) → home after key ≡ home bs key
  home-after key = ap (λ x. gethash key % x) (length-set bs i node)

  filled : is_empty node.status ≡ false
  filled = ap is_empty taken

  pub put-IsPlaced : IsPlaced dflt after
  put-IsPlaced = record {
    roomy = rw (length-set bs i node) placed.roomy;
    reached = λ j key h.
        subst (λ x. Trail dflt after x j) (sym (home-after key))
          (elim (put_cases j key h) [
            | inl (at, same) ↦
                subst (λ x. Trail dflt after (home bs key) x) (sym at)
                  (Trail-write dflt bs i node inside (home bs key) i filled
                    (subst (λ k. Trail dflt bs (home bs k) i) (sym same) target.trail))
            | inr (_, _, old) ↦
                Trail-write dflt bs i node inside (home bs key) j filled (placed.reached j key old)
          ]);
    unique = λ j k key h g. elim (put_cases j key h) [
      | inl (at, same) ↦ elim (put_cases k key g) [
        | inl (also, _) ↦ at ∙ sym also
        | inr (_, other, _) ↦ absurd (other same)
      ]
      | inr (_, other, old) ↦ elim (put_cases k key g) [
        | inl (_, same) ↦ absurd (other same)
        | inr (_, _, old₂) ↦ placed.unique j k key old old₂
      ]
    ];
  }

  put_elsewhere :
      (key : Bytes) → key ≢ node.key → {o : Option V} → Looked dflt bs key o → lookup after key ≡ o
  put_elsewhere key other (absent lacks) = lookup_absent dflt after key λ j.
      elim (Bool-cases (matches key (at_slot dflt after j))) [
        | inr e ↦ e
        | inl h ↦ absurd (elim (put_cases j key h) [
          | inl (_, same) ↦ other same
          | inr (_, _, old) ↦ Bool-contra _ old (lacks j)
        ])
      ]
  put_elsewhere key other (present j h holds) =
      let same = at-write_ne dflt bs i node inside j (elim (Bool-cases (j == i)) [
        | inr e ↦ e
        | inl e ↦ absurd (
            other (
              target.own key
                (subst (λ x. matches key (at_slot dflt bs x) ≡ true) ((==_iff j i).0 e) holds)))
      ]) in
      lookup_present dflt after j key put-IsPlaced (rw same holds) ∙ ap (λ n. some n.value) same

  pub put-lookup :
      (key : Bytes)
      → lookup after key ≡ (if key =ᵇ node.key then some node.value else lookup bs key)
  put-lookup key = elim (Bool-cases (key =ᵇ node.key)) [
    | inl e ↦ rw (e) (
        lookup_present dflt after i key put-IsPlaced (rw (=ᵇ→eq key node.key e) put_self)
        ∙ ap (λ n. some n.value) (at-write_self dflt bs i node inside))
    | inr e ↦ rw (e) (
        put_elsewhere key (λ same. Bool-contra _ ((=ᵇ_iff key node.key).1 same) e)
          (looked dflt bs key))
  ]
