-- ===== src/Prelude/Tests.antt =====
-- Boolean tests on native numbers and on byte strings, and the conditional.
use Prim.Native.Nat.{ℕ, ◌≤◌, ◌<◌, compare, Ordering}
use mathlib.Core.Path.{◌≡◌, refl}
use mathlib.Core.Logic.{◌↔◌, ◌⊎◌, inl, inr}
use mathlib.Core.Bool.{Bool, true, false, ◌&&◌}
use mathlib.Core.Option.{Option, none, some}
use mathlib.Core.List.{List, [], ◌∷◌}
use native.Mathlib.Omega.{arith}

abbrev pub ltb : ℕ → ℕ → Bool
ltb a b = elim (compare a b) [ Ordering.lt ↦ true | _ ↦ false ]

abbrev pub leb : ℕ → ℕ → Bool
leb a b = elim (compare a b) [ Ordering.gt ↦ false | _ ↦ true ]

infix 50 ◌==◌
abbrev pub ◌==◌ : ℕ → ℕ → Bool
a == b = elim (compare a b) [ Ordering.eq ↦ true | _ ↦ false ]

infix 1 if◌then◌else◌
abbrev pub if◌then◌else◌ {ℓ} : {A : Type ℓ} → Bool → A → A → A
if true then x else y = x
if false then x else y = y

pub ltb→lt : (a b : ℕ) → ltb a b ≡ true → a < b
ltb→lt a b h = ground arith

pub lt→ltb : (a b : ℕ) → a < b → ltb a b ≡ true
lt→ltb a b h = ground arith

pub leb→le : (a b : ℕ) → leb a b ≡ true → a ≤ b
leb→le a b h = ground arith

pub ==_iff : (a b : ℕ) → ((a == b) ≡ true) ↔ (a ≡ b)
==_iff a b = ground arith

pub ==_refl : (a : ℕ) → (a == a) ≡ true
==_refl a = ground arith

-- A split on a computed test that keeps the equation.
pub Bool-cases : (b : Bool) → (b ≡ true) ⊎ (b ≡ false)
Bool-cases true = inl refl
Bool-cases false = inr refl

pub Bool-contra : (b : Bool) → b ≡ true → b ≡ false → ⊥
Bool-contra b p q = cc

-- Whether there is a value.
abbrev pub is_some {ℓ} : {A : Type ℓ} → Option A → Bool
is_some none = false
is_some (some a) = true

pub Option-cases {ℓ} : {A : Type ℓ} (o : Option A) → (o ≡ none) ⊎ ((a : A) × (o ≡ some a))
Option-cases none = inl refl
Option-cases (some a) = inr (a, refl)

-- `std::string` equality, on the bytes.
infix 50 ◌=ᵇ◌
unfoldable pub ◌=ᵇ◌ : List ℕ → List ℕ → Bool
[] =ᵇ [] = true
[] =ᵇ (y ∷ ys) = false
(x ∷ xs) =ᵇ [] = false
(x ∷ xs) =ᵇ (y ∷ ys) = (x == y) && (xs =ᵇ ys)

pub =ᵇ→eq : (xs ys : List ℕ) → (xs =ᵇ ys) ≡ true → xs ≡ ys
unfolding ◌=ᵇ◌
=ᵇ→eq [] [] h = refl
=ᵇ→eq [] (y ∷ ys) h = ground arith
=ᵇ→eq (x ∷ xs) [] h = ground arith
=ᵇ→eq (x ∷ xs) (y ∷ ys) h = ground (arith, =ᵇ→eq xs ys)

pub =ᵇ_refl : (xs : List ℕ) → (xs =ᵇ xs) ≡ true
unfolding ◌=ᵇ◌
=ᵇ_refl [] = refl
=ᵇ_refl (x ∷ xs) = ground (arith, =ᵇ_refl xs)

pub =ᵇ_iff : (xs ys : List ℕ) → ((xs =ᵇ ys) ≡ true) ↔ (xs ≡ ys)
=ᵇ_iff xs ys = (=ᵇ→eq xs ys, λ e. ground (arith, e, =ᵇ_refl xs))
