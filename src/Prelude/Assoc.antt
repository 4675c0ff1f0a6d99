-- ===== src/Prelude/Assoc.antt =====
-- `std::map` with an unsigned key, as a list in the order of the keys.
use Prim.Native.Nat.{ℕ}
use mathlib.Core.Path.{◌≡◌, refl, ap}
use mathlib.Core.Logic.{◌≢◌, inl, inr}
use mathlib.Core.Bool.{false}
use mathlib.Core.List.{List, [], ◌∷◌}
use mathlib.Core.Option.{Option, none, some}
use native.Mathlib.Omega.{arith}
use kvjet.Prelude.Tests.{ltb, ◌==◌, if◌then◌else◌, Bool-cases}
use kvjet.Prelude.Lists.{All}

abbrev pub Assoc {ℓ} : Type ℓ → Type ℓ
Assoc V = List (ℕ × V)

module _ {ℓ} {V : Type ℓ} where
  abbrev pub find : ℕ → Assoc V → Option V
  find k [] = none
  find k (p ∷ m) = let rest = find k m in if p.0 == k then some p.1 else rest

  -- `m[k] = v`
  abbrev pub insert : ℕ → V → Assoc V → Assoc V
  insert k v [] = (k, v) ∷ []
  insert k v (p ∷ m) =
      let rest = insert k v m in
      if ltb k p.0 then (k, v) ∷ p ∷ m else if p.0 == k then (k, v) ∷ m else p ∷ rest

  abbrev pub erase : ℕ → Assoc V → Assoc V
  erase k [] = []
  erase k (p ∷ m) = let rest = erase k m in if p.0 == k then rest else p ∷ rest

  -- The first entry whose key is not below `k`.
  abbrev pub lower_bound : ℕ → Assoc V → Option (ℕ × V)
  lower_bound k [] = none
  lower_bound k (p ∷ m) = let rest = lower_bound k m in if ltb p.0 k then rest else some p

  pub find-insert :
      (k other : ℕ) (v : V) (m : Assoc V)
      → find other (insert k v m) ≡ (if k == other then some v else find other m)
  find-insert k other v [] = refl
  find-insert k other v (p ∷ m) = ground (arith, find-insert k other v m)

  pub find-erase :
      (k other : ℕ) (m : Assoc V)
      → find other (erase k m) ≡ (if k == other then none else find other m)
  find-erase k other [] = ground arith
  find-erase k other (p ∷ m) = ground (arith, find-erase k other m)

  some_inj : {a b : ℕ × V} → some a ≡ some b → a ≡ b
  some_inj e = cc

  -- Erasing another key does not move the bound.
  pub lower_bound-erase :
      (h k : ℕ) (m : Assoc V) (p : ℕ × V)
      → lower_bound h m ≡ some p
      → p.0 ≢ k
      → lower_bound h (erase k m) ≡ some p
  lower_bound-erase h k [] p e apart = cc
  lower_bound-erase h k (q ∷ m) p e apart = elim (Bool-cases (ltb q.0 h)) [
    | inl low ↦
        let rest = lower_bound-erase h k m p (ground (arith, e, low)) apart in
        ground (arith, low, rest)
    | inr high ↦
        let same : q ≡ p = some_inj (rw high at e) in
        let other : (q.0 == k) ≡ false = ground (arith, apart, ap (λ x. x.0) same) in
        rw (other, high) (ap some same)
  ]

  pub lower_bound-erase-none :
      (h k : ℕ) (m : Assoc V) → lower_bound h m ≡ none → lower_bound h (erase k m) ≡ none
  lower_bound-erase-none h k [] e = refl
  lower_bound-erase-none h k (q ∷ m) e = ground (arith, e, lower_bound-erase-none h k m)

  pub erase-All {κ} :
      (P : ℕ × V → Type κ) (k : ℕ) (m : Assoc V) → All P m → All (λ p. P p × (p.0 ≢ k)) (erase k m)
  erase-All P k [] h = tt
  erase-All P k (p ∷ m) h = elim (Bool-cases (p.0 == k)) [
    | inl e ↦ rw e (erase-All P k m h.1)
    | inr e ↦ rw e ((h.0, λ same. ground (arith, e, same)), erase-All P k m h.1)
  ]

  pub insert-All {κ} :
      (P : ℕ × V → Type κ) (k : ℕ) (v : V) (m : Assoc V) → P (k, v) → All P m → All P (insert k v m)
  insert-All P k v [] new h = (new, tt)
  insert-All P k v (p ∷ m) new h = elim (Bool-cases (ltb k p.0)) [
    | inl e ↦ rw e (new, h)
    | inr e ↦ elim (Bool-cases (p.0 == k)) [
      | inl f ↦ rw (e, f) (new, h.1)
      | inr f ↦ rw (e, f) (h.0, insert-All P k v m new h.1)
    ]
  ]
