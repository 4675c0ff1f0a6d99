-- ===== src/Store/HashTable/Placed.antt =====
-- kvstore/HashTable: the bucket arrays that the operations keep, and the map that one stands for.
use native.Mathlib.Nat.{mod-lt}
use kvjet.Prelude.{
  Bool-contra, ℕ, zero, suc, ◌+◌, ◌%◌, ◌<◌, Bool, true, false, List, [], ◌∷◌, Option, none, some,
  ◌≡◌, refl, ap, inl, inr, Bytes, length, ◌==◌, arith, Bool-cases, if◌then◌else◌, subst, ==_iff,
  get_or-set_self, get_or-set_ne, length-set,
}
use kvjet.Prelude.{set as write}
use kvjet.Store.HashTable.{Node, gethash}
use kvjet.Store.HashTable.Slot.{slot, is_empty, matches, at_slot}

module _ {ℓ} {V : Type ℓ} where
  -- The map that a bucket array stands for, read off without any hashing.
  unfoldable pub lookup : List (Node V) → Bytes → Option V
  lookup [] key = none
  lookup (node ∷ bs) key =
      let rest = lookup bs key in if matches key node then some node.value else rest

  abbrev pub home : List (Node V) → Bytes → ℕ
  home bs key = gethash key % length bs

module _ {ℓ} {V : Type ℓ} (dflt : V) where
  -- No slot on the way from `raw` to the slot `i` is empty.
  pub record Trail (bs : List (Node V)) (raw i : ℕ) : Type 0 where
    pub steps : ℕ
    pub near : steps < length bs
    pub leads : slot (length bs) raw steps ≡ i
    pub filled :
        (e : ℕ) → e < steps → is_empty (at_slot dflt bs (slot (length bs) raw e)).status ≡ false

  pub record IsPlaced (bs : List (Node V)) : Type 0 where
    pub roomy : 0 < length bs
    pub reached :
        (i : ℕ) (key : Bytes) → matches key (at_slot dflt bs i) ≡ true → Trail bs (home bs key) i
    pub unique :
        (i j : ℕ) (key : Bytes)
        → matches key (at_slot dflt bs i) ≡ true
        → matches key (at_slot dflt bs j) ≡ true
        → i ≡ j

  -- What the array answers for a key: nothing, if no slot holds it, or the value of a slot that does.
  pub data Looked (bs : List (Node V)) (key : Bytes) : Option V → Type ℓ where
    absent : ((i : ℕ) → matches key (at_slot dflt bs i) ≡ false) → Looked bs key none
    present :
        (i : ℕ)
        → i < length bs
        → matches key (at_slot dflt bs i) ≡ true
        → Looked bs key (some (at_slot dflt bs i).value)

  nowhere_cons :
      (node : Node V) (bs : List (Node V)) (key : Bytes)
      → matches key node ≡ false
      → ((i : ℕ) → matches key (at_slot dflt bs i) ≡ false)
      → (i : ℕ) → matches key (at_slot dflt (node ∷ bs) i) ≡ false
  nowhere_cons node bs key m lacks zero = m
  nowhere_cons node bs key m lacks (suc j) = lacks j

  Looked-cons :
      (node : Node V) (bs : List (Node V)) (key : Bytes)
      → (b : Bool) → matches key node ≡ b
      → {o : Option V} → Looked bs key o
      → Looked (node ∷ bs) key (if b then some node.value else o)
  Looked-cons node bs key true m l = present 0 (omega arith) m
  Looked-cons node bs key false m (absent lacks) = absent (nowhere_cons node bs key m lacks)
  Looked-cons node bs key false m (present i h holds) = present (suc i) (omega arith) holds

  pub looked : (bs : List (Node V)) (key : Bytes) → Looked bs key (lookup bs key)
  unfolding lookup
  looked [] key = absent λ i. refl
  looked (node ∷ bs) key = Looked-cons node bs key (matches key node) refl (looked bs key)

  pub lookup_absent :
      (bs : List (Node V)) (key : Bytes)
      → ((i : ℕ) → matches key (at_slot dflt bs i) ≡ false)
      → lookup bs key ≡ none
  lookup_absent bs key lacks = go (looked bs key)
    where
      go : {o : Option V} → Looked bs key o → o ≡ none
      go (absent _) = refl
      go (present i h holds) = absurd (Bool-contra _ holds (lacks i))

  pub lookup_present :
      (bs : List (Node V)) (i : ℕ) (key : Bytes)
      → IsPlaced bs
      → matches key (at_slot dflt bs i) ≡ true
      → lookup bs key ≡ some (at_slot dflt bs i).value
  lookup_present bs i key placed holds = go (looked bs key)
    where
      go : {o : Option V} → Looked bs key o → o ≡ some (at_slot dflt bs i).value
      go (absent lacks) = absurd (Bool-contra _ holds (lacks i))
      go (present j h m) = ap (λ x. some (at_slot dflt bs x).value) (placed.unique j i key m holds)

  pub Trail→lt : (bs : List (Node V)) (raw i : ℕ) → Trail bs raw i → i < length bs
  Trail→lt bs raw i t =
      subst (λ x. x < length bs) t.leads (mod-lt (raw + t.steps) (omega (arith, t.near)))

  -- A slot that may take a key: no other slot holds it, and it holds no other key.
  pub record Target (bs : List (Node V)) (key : Bytes) (i : ℕ) : Type 0 where
    pub trail : Trail bs (home bs key) i
    pub only : (j : ℕ) → matches key (at_slot dflt bs j) ≡ true → j ≡ i
    pub own : (other : Bytes) → matches other (at_slot dflt bs i) ≡ true → other ≡ key

  module _ (bs : List (Node V)) (i : ℕ) (node : Node V) (inside : i < length bs) where
    pub at-write_self : at_slot dflt (write bs i node) i ≡ node
    at-write_self = get_or-set_self bs i node _ inside

    pub at-write_ne :
        (j : ℕ) → (j == i) ≡ false → at_slot dflt (write bs i node) j ≡ at_slot dflt bs j
    at-write_ne j h = get_or-set_ne bs i j node _ (λ e. ground (arith, h, e))

    filled-write :
        (j : ℕ)
        → is_empty node.status ≡ false
        → is_empty (at_slot dflt bs j).status ≡ false
        → is_empty (at_slot dflt (write bs i node) j).status ≡ false
    filled-write j new old = elim (Bool-cases (j == i)) [
      | inl e ↦ rw ((==_iff j i).0 e, at-write_self) new
      | inr e ↦ rw (at-write_ne j e) old
    ]

    pub Trail-write :
        (raw j : ℕ) → is_empty node.status ≡ false → Trail bs raw j → Trail (write bs i node) raw j
    Trail-write raw j new t = record {
      steps = t.steps;
      near = rw (length-set bs i node) t.near;
      leads = rw (length-set bs i node) t.leads;
      filled = λ e h. rw (length-set bs i node) (filled-write _ new (t.filled e h));
    }
