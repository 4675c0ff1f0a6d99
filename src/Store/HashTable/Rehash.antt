-- ===== src/Store/HashTable/Rehash.antt =====
-- kvstore/HashTable: `rehash` keeps the map.
use kvjet.Prelude.{
  Bool-contra, ℕ, zero, suc, ◌+◌, ◌*◌, ◌<◌, ◌≤◌, true, false, List, [], ◌∷◌, Option, none, some,
  ◌≡◌, refl, sym, ap, ◌∙◌, inl, inr, Bytes, length, ◌=ᵇ◌, arith, Bool-cases, if◌then◌else◌, =ᵇ_iff,
  =ᵇ→eq, =ᵇ_refl, replicate, length-replicate,
}
use kvjet.Prelude.Outcome.{Returns}
use kvjet.Store.HashTable.{
  Stat, deleted, empty, occupied, is_occupied, Node, empty_node, HashTable, reinsert, rehash, new,
}
use kvjet.Store.HashTable.Slot.{is_empty, matches, at_slot}
use kvjet.Store.HashTable.Placed.{lookup, IsPlaced, lookup_absent}
use kvjet.Store.HashTable.Search.{IsValid}
use kvjet.Store.HashTable.Vacancy.{empties, empties-replicate}
use kvjet.Store.HashTable.Write.{matches→key}
use kvjet.Store.HashTable.Map.{place-Put}

module _ {ℓ} {V : Type ℓ} (dflt : V) where
  -- No two entries of the list have the same key.
  abbrev AreDistinct : List (Node V) → Type ℓ
  AreDistinct [] = Unit
  AreDistinct (node ∷ bs) =
      (is_occupied node.status ≡ true → lookup bs node.key ≡ none) × AreDistinct bs

  abbrev IsUnique : List (Node V) → Type 0
  IsUnique bs =
      (i j : ℕ) (key : Bytes)
      → matches key (at_slot dflt bs i) ≡ true
      → matches key (at_slot dflt bs j) ≡ true
      → i ≡ j

  tail-IsUnique : (node : Node V) (bs : List (Node V)) → IsUnique (node ∷ bs) → IsUnique bs
  tail-IsUnique node bs u i j key h g = omega (arith, u (suc i) (suc j) key h g)

  IsUnique→AreDistinct : (bs : List (Node V)) → IsUnique bs → AreDistinct bs
  IsUnique→AreDistinct [] u = tt
  IsUnique→AreDistinct (node ∷ bs) u = (
    λ h. lookup_absent dflt bs node.key (λ j.
        elim (Bool-cases (matches node.key (at_slot dflt bs j))) [
          | inr e ↦ e
          | inl e ↦ absurd (omega (arith, u 0 (suc j) node.key (rw (h, =ᵇ_refl node.key) refl) e))
        ]),
    IsUnique→AreDistinct bs (tail-IsUnique node bs u),
  )

  abbrev over : Option V → Option V → Option V
  over none o = o
  over (some v) o = some v

  -- The old entries go over those of the new table.
  pub record Merged (old : List (Node V)) (t u : HashTable V) : Type ℓ where
    pub valid : IsValid dflt u
    pub room : empties t.buckets + empties old ≤ empties u.buckets + length old
    pub same_width : u.bucketsz ≡ t.bucketsz
    pub same_size : u.sz ≡ t.sz
    pub maps : (k : Bytes) → lookup u.buckets k ≡ over (lookup old k) (lookup t.buckets k)

  not_empty : (st : Stat) → is_occupied st ≡ true → is_empty st ≡ false
  not_empty deleted h = refl
  not_empty empty h = cc
  not_empty occupied h = refl

  over-none : (o : Option V) → over o none ≡ o
  over-none none = refl
  over-none (some v) = refl

  matches_other : (k : Bytes) (node : Node V) → (k =ᵇ node.key) ≡ false → matches k node ≡ false
  matches_other k node h = elim (Bool-cases (matches k node)) [
    | inr e ↦ e
    | inl e ↦ absurd (Bool-contra _ ((=ᵇ_iff k node.key).1 (sym (matches→key k node e))) h)
  ]

  -- The first old entry goes over the new table, and the others do not have its key.
  merge_one :
      (node : Node V) (old : List (Node V)) (k : Bytes) (o new : Option V)
      → new ≡ (if k =ᵇ node.key then some node.value else o)
      → is_occupied node.status ≡ true
      → lookup old node.key ≡ none
      → over (lookup old k) new ≡ over (lookup (node ∷ old) k) o
  unfolding lookup
  merge_one node old k o new e h lone = elim (Bool-cases (k =ᵇ node.key)) [
    | inl same ↦
        let eq = =ᵇ→eq k node.key same in
        let here : matches k node ≡ true = rw (eq, h, =ᵇ_refl node.key) refl in
        let gone : lookup old k ≡ none = ap (lookup old) eq ∙ lone in rw (here, gone, e, same) refl
    | inr other ↦
        let elsewhere : matches k node ≡ false = matches_other k node other in
        rw (elsewhere, e, other) refl
  ]

  reinsert-Merged :
      (old : List (Node V)) (t : HashTable V)
      → IsValid dflt t
      → length old < empties t.buckets
      → AreDistinct old
      → Returns (reinsert old t) (Merged old t)
  unfolding reinsert lookup empties
  reinsert-Merged [] t valid room distinct = (
    t,
    refl,
    record {
      valid = valid;
      room = omega arith;
      same_width = refl;
      same_size = refl;
      maps = λ k. refl;
    },
  )
  reinsert-Merged (node ∷ old) t valid room distinct = elim (Bool-cases (is_occupied node.status)) [
    | inl e ↦
        let p = place-Put dflt t node.key node.value valid (omega arith) in
        let rest = reinsert-Merged old p.0 p.2.valid (omega (arith, p.2.room)) distinct.1 in
        (
          rest.0,
          rw (e, p.1) rest.1,
          record {
            valid = rest.2.valid;
            room = ground (arith, e, not_empty node.status e, rest.2.room, p.2.room);
            same_width = rest.2.same_width ∙ p.2.same_width;
            same_size = rest.2.same_size ∙ p.2.size;
            maps = λ k. rest.2.maps k ∙ merge_one node old k _ _ (p.2.maps k) e (distinct.0 e);
          },
        )
    | inr e ↦
        let rest = reinsert-Merged old t valid (omega arith) distinct.1 in
        (
          rest.0,
          rw e rest.1,
          record {
            valid = rest.2.valid;
            room = ground (arith, rest.2.room);
            same_width = rest.2.same_width;
            same_size = rest.2.same_size;
            maps = λ k. rest.2.maps k ∙ ap (λ o. over o (lookup t.buckets k)) (ground (arith, e));
          },
        )
  ]

  -- The empty array of twice the size.
  fresh : HashTable V → HashTable V
  fresh t = record {
    buckets = replicate (2 * t.bucketsz) (empty_node dflt);
    bucketsz = 2 * t.bucketsz;
    sz = t.sz;
  }

  pub at-replicate : (n i : ℕ) → at_slot dflt (replicate n (empty_node dflt)) i ≡ empty_node dflt
  at-replicate zero i = refl
  at-replicate (suc n) zero = refl
  at-replicate (suc n) (suc i) = at-replicate n i

  pub replicate-lacks :
      (n i : ℕ) (key : Bytes) → matches key (at_slot dflt (replicate n (empty_node dflt)) i) ≡ false
  replicate-lacks n i key = rw (at-replicate n i) refl

  pub replicate-IsPlaced : (n : ℕ) → 0 < n → IsPlaced dflt (replicate n (empty_node dflt))
  replicate-IsPlaced n h = record {
    roomy = omega (arith, length-replicate n (empty_node dflt));
    reached = λ i key m. absurd (Bool-contra _ m (replicate-lacks n i key));
    unique = λ i j key m _. absurd (Bool-contra _ m (replicate-lacks n i key));
  }

  -- `rehash` returns, keeps every entry and leaves more empty slots than the old table had slots.
  pub record Rehashed (t u : HashTable V) : Type ℓ where
    pub valid : IsValid dflt u
    pub maps : (k : Bytes) → lookup u.buckets k ≡ lookup t.buckets k
    pub room : t.bucketsz + empties t.buckets ≤ empties u.buckets
    pub twice : u.bucketsz ≡ 2 * t.bucketsz
    pub same_size : u.sz ≡ t.sz

  pub rehash-Rehashed : (t : HashTable V) → IsValid dflt t → Returns (rehash dflt t) (Rehashed t)
  unfolding fresh rehash
  rehash-Rehashed t valid =
      let n = 2 * t.bucketsz in
      let filled = empties-replicate dflt n in
      let some_slots : 0 < t.bucketsz = omega (arith, valid.width, valid.placed.roomy) in
      let m =
        reinsert-Merged t.buckets (fresh t)
          (record {
            width = length-replicate n (empty_node dflt);
            placed = replicate-IsPlaced n (omega arith);
          })
          (omega (arith, filled, valid.width, some_slots))
          (IsUnique→AreDistinct t.buckets valid.placed.unique) in
      (
        m.0,
        m.1,
        record {
          valid = m.2.valid;
          maps = λ k.
              m.2.maps k
              ∙ ap (over (lookup t.buckets k)) (lookup_absent dflt _ k λ i. replicate-lacks n i k)
              ∙ over-none (lookup t.buckets k);
          room = omega (arith, m.2.room, filled, valid.width);
          twice = m.2.same_width;
          same_size = m.2.same_size;
        },
      )
