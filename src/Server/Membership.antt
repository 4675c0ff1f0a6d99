-- ===== src/Server/Membership.antt =====
-- server/Server: who belongs to the groups that `initRaftGroups` sets up.
use native.Mathlib.Nat.{mod-lt, mod-eq_of_lt, mod-one, mod-add-mod, add-mod_right}
use kvjet.Prelude.{
  ℕ, zero, suc, ◌+◌, ◌-◌, ◌%◌, ◌^◌, ◌≤◌, ◌<◌, true, false, List, [], ◌∷◌, ◌==◌, ◌≡◌, refl, sym, ◌∙◌,
  ap, arith, length, All, All-map, get_or, leb, ==_iff, Bool-cases, inl, inr,
}
use kvjet.Prelude.Outcome.{ok, index, index-get_or}
use kvjet.Cluster.{contains}
use kvjet.Server.Groups.{self_index, index_from, distinct, group_index, members_of_group}

-- No element occurs twice.
abbrev pub NoDup : List ℕ → Type 0
NoDup [] = Unit
NoDup (x ∷ xs) = (contains x xs ≡ false) × NoDup xs

distinct-NoDup :
    (seen xs : List ℕ)
    → NoDup (distinct seen xs) × All (λ x. contains x seen ≡ false) (distinct seen xs)
distinct-NoDup seen [] = (tt, tt)
distinct-NoDup seen (x ∷ xs) = elim (Bool-cases (contains x seen)) [
  | inl old ↦ rw old (distinct-NoDup seen xs)
  | inr new ↦
      let (nodup, apart) = distinct-NoDup (x ∷ seen) xs in
      rw new (
        (absent (distinct (x ∷ seen) xs) apart, nodup),
        (new, All-map _ _ (distinct (x ∷ seen) xs) (λ y h. ground (arith, h)) apart),
      )
]
  where
    absent : (ys : List ℕ) → All (λ y. contains y (x ∷ seen) ≡ false) ys → contains x ys ≡ false
    absent [] h = refl
    absent (y ∷ ys) h = ground (arith, absent ys h.1, h.0)

length-distinct : (seen xs : List ℕ) → length (distinct seen xs) ≤ length xs
length-distinct seen [] = omega arith
length-distinct seen (x ∷ xs) =
    ground (arith, length-distinct seen xs, length-distinct (x ∷ seen) xs)

-- What is new to `seen` is kept.
contains-distinct :
    (y : ℕ) (seen xs : List ℕ)
    → contains y seen ≡ false
    → contains y (distinct seen xs) ≡ contains y xs
contains-distinct y seen [] h = refl
contains-distinct y seen (x ∷ xs) h = elim (Bool-cases (y == x)) [
  | inl same ↦
      let new : contains x seen ≡ false =
        ap (λ z. contains z seen) (sym ((==_iff y x).0 same)) ∙ h in
      rw (new, same) refl
  | inr other ↦ elim (Bool-cases (contains x seen)) [
    | inl old ↦ rw (old, other) (contains-distinct y seen xs h)
    | inr new ↦ rw (new, other) (contains-distinct y (x ∷ seen) xs (rw other h))
  ]
]

-- The `k`-th member of the group is the node itself.
group_index-back : (i k n : ℕ) → i < n → n < 2 ^ 63 → k < 3 → (group_index i k n + k) % n ≡ i
group_index-back i k n h fits small = elim (Bool-cases (leb k (i + n))) [
  | inl enough ↦
      let sum : (i + (2 ^ 64 - k) % 2 ^ 64 + n) % 2 ^ 64 + k ≡ i + n = ground arith in
      mod-add-mod ((i + (2 ^ 64 - k) % 2 ^ 64 + n) % 2 ^ 64) n k
      ∙ ap (λ x. x % n) sum
      ∙ add-mod_right i n
      ∙ mod-eq_of_lt h
  | inr alone ↦
      let one : n ≡ 1 = ground arith in
      let first : i ≡ 0 = ground arith in rw (one, first) (mod-one _)
]

-- Where the node's own number stands.
index_from-suc :
    (self i : ℕ) (ids : List ℕ)
    → contains self ids ≡ true
    → index_from self (suc i) ids ≡ suc (index_from self i ids)
index_from-suc self i [] h = ground arith
index_from-suc self i (id ∷ ids) h = ground (arith, index_from-suc self (suc i) ids)

pub get_or-self_index :
    (self : ℕ) (ids : List ℕ)
    → contains self ids ≡ true
    → (self_index self ids < length ids) × (get_or ids (self_index self ids) 0 ≡ self)
get_or-self_index self [] h = ground arith
get_or-self_index self (id ∷ ids) h = elim (Bool-cases (id == self)) [
  | inl here ↦ rw here (omega arith, (==_iff id self).0 here)
  | inr there ↦
      let rest : contains self ids ≡ true = ground arith in
      let (inside, found) = get_or-self_index self ids rest in
      rw (there, index_from-suc self 0 ids rest) (omega arith, found)
]

-- A group of the nodes `ids`, as a node that is in it sees it.
pub record IsGroup (ids : List ℕ) (self : ℕ) (members : List ℕ) : Type 0 where
  pub size : length members ≤ 3
  pub no_dup : NoDup members
  pub own : contains self members ≡ true
  pub known : All (λ m. contains m ids ≡ true) members

contains-get_or : (ids : List ℕ) (i : ℕ) → i < length ids → contains (get_or ids i 0) ids ≡ true
contains-get_or [] i h = absurd (omega arith)
contains-get_or (x ∷ xs) zero h = ground arith
contains-get_or (x ∷ xs) (suc i) h = ground (arith, contains-get_or xs i)

distinct-All : (P : ℕ → Type 0) (seen xs : List ℕ) → All P xs → All P (distinct seen xs)
distinct-All P seen [] h = tt
distinct-All P seen (x ∷ xs) h = elim (Bool-cases (contains x seen)) [
  | inl old ↦ rw old (distinct-All P seen xs h.1)
  | inr new ↦ rw new (h.0, distinct-All P (x ∷ seen) xs h.1)
]

-- The node at `i` of the ring of all nodes.
abbrev pub node_at : List ℕ → ℕ → ℕ
node_at ids i = get_or ids (i % length ids) 0

index-node_at :
    (ids : List ℕ) (i : ℕ) → 0 < length ids → index ids (i % length ids) ≡ ok (node_at ids i)
index-node_at ids i h = index-get_or ids (i % length ids) 0 (mod-lt i h)

abbrev pub ring_of : List ℕ → ℕ → List ℕ
ring_of ids gi = node_at ids (gi + 0) ∷ node_at ids (gi + 1) ∷ node_at ids (gi + 2) ∷ []

pub members_of_group-ring_of :
    (ids : List ℕ) (gi : ℕ) → 0 < length ids → members_of_group ids gi ≡ ok (ring_of ids gi)
members_of_group-ring_of ids gi h =
    rw (index-node_at ids (gi + 0) h, index-node_at ids (gi + 1) h, index-node_at ids (gi + 2) h)
      refl

-- The offsets of the groups that the node is in.
ring_of-contains :
    (ids : List ℕ) (self gi k : ℕ)
    → k < 3
    → node_at ids (gi + k) ≡ self
    → contains self (ring_of ids gi) ≡ true
ring_of-contains ids self gi zero small e = ground (arith, e)
ring_of-contains ids self gi (suc zero) small e = ground (arith, e)
ring_of-contains ids self gi (suc (suc zero)) small e = ground (arith, e)
ring_of-contains ids self gi (suc (suc (suc k))) small e = absurd (omega arith)

pub ring_of-IsGroup :
    (ids : List ℕ) (self k : ℕ)
    → contains self ids ≡ true
    → length ids < 2 ^ 63
    → k < 3
    → IsGroup ids self
        (distinct [] (ring_of ids (group_index (self_index self ids) k (length ids))))
ring_of-IsGroup ids self k own fits small =
    let i = self_index self ids in
    let gi = group_index i k (length ids) in
    let (inside, found) = get_or-self_index self ids own in
    let some_node : 0 < length ids = omega arith in
    let back : node_at ids (gi + k) ≡ self =
      ap (λ x. get_or ids x 0) (group_index-back i k (length ids) inside fits small) ∙ found in
    let known = λ (j : ℕ). contains-get_or ids (j % length ids) (mod-lt j some_node) in
    record {
      size = length-distinct [] (ring_of ids gi);
      no_dup = (distinct-NoDup [] (ring_of ids gi)).0;
      own =
          contains-distinct self [] (ring_of ids gi) refl
          ∙ ring_of-contains ids self gi k small back;
      known =
          distinct-All (λ m. contains m ids ≡ true) [] (ring_of ids gi)
            (known (gi + 0), (known (gi + 1), (known (gi + 2), tt)));
    }
