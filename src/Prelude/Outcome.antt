-- ===== src/Prelude/Outcome.antt =====
-- What a call of the program ends in: it returns, it throws `std::runtime_error` with a message, or
-- its behaviour is undefined in C++ (a signed overflow, a read through an empty optional or a null
-- pointer, an index out of range).
use Prim.Native.Nat.{ℕ, zero, suc, ◌<◌}
use Prim.Native.String.{String}
use mathlib.Core.List.{List, [], ◌∷◌}
use native.Mathlib.Omega.{arith}
use kvjet.Prelude.Lists.{length, get_or}
use mathlib.Core.Bool.{Bool, true, false}
use mathlib.Core.Path.{◌≡◌, refl, ap, subst}
use kvjet.Prelude.Tests.{if◌then◌else◌}

pub data Outcome {ℓ} (A : Type ℓ) : Type ℓ where
  ok : A → Outcome A
  raised : String → Outcome A
  undefined : Outcome A

pub ok_inj {ℓ} : {A : Type ℓ} {a b : A} → ok a ≡ ok b → a ≡ b
ok_inj e = cc

infixl 5 ◌>>=◌ ◌>>◌
abbrev pub ◌>>=◌ {ℓ κ} : {A : Type ℓ} {B : Type κ} → Outcome A → (A → Outcome B) → Outcome B
ok a >>= f = f a
raised e >>= f = raised e
undefined >>= f = undefined

abbrev pub ◌>>◌ {ℓ} : {B : Type ℓ} → Outcome (Unit {0}) → Outcome B → Outcome B
m >> k = m >>= λ _. k

-- An index into a vector, which is not checked.
abbrev pub index {ℓ} : {A : Type ℓ} → List A → ℕ → Outcome A
index [] i = undefined
index (x ∷ xs) zero = ok x
index (x ∷ xs) (suc i) = index xs i

pub index-get_or {ℓ} :
    {A : Type ℓ} (xs : List A) (i : ℕ) (d : A) → i < length xs → index xs i ≡ ok (get_or xs i d)
index-get_or [] i d h = absurd (omega arith)
index-get_or (x ∷ xs) zero d h = refl
index-get_or (x ∷ xs) (suc i) d h = index-get_or xs i d (omega arith)

pub bind_assoc {ℓ} :
    {A B C : Type ℓ} (m : Outcome A) (f : A → Outcome B) (g : B → Outcome C)
    → (m >>= f >>= g) ≡ (m >>= λ a. f a >>= g)
bind_assoc (ok a) f g = refl
bind_assoc (raised e) f g = refl
bind_assoc undefined f g = refl

-- The call returns, and its result has the property.
abbrev pub Returns {ℓ κ} : {A : Type ℓ} → Outcome A → (A → Type κ) → Type (ℓ ⊔ κ)
Returns {A = A} m P = (a : A) × (m ≡ ok a) × P a

-- If the call returns, its result has the property.
abbrev pub Ensures {ℓ κ} : {A : Type ℓ} → (A → Type κ) → Outcome A → Type (ℓ ⊔ κ)
Ensures {A = A} P m = (a : A) → m ≡ ok a → P a

module _ {ℓ κ} {A : Type ℓ} (P : A → Type κ) where
  pub Ensures-ok : (a : A) → P a → Ensures P (ok a)
  Ensures-ok a p b e = subst P (cc) p

  pub Ensures-if :
      (b : Bool) (x y : Outcome A)
      → (b ≡ true → Ensures P x)
      → (b ≡ false → Ensures P y)
      → Ensures P (if b then x else y)
  Ensures-if true x y px py = px refl
  Ensures-if false x y px py = py refl

  -- The rest of a call may use that what stands before it has returned.
  pub Ensures-bind {ι} :
      {B : Type ι} (m : Outcome B) (f : B → Outcome A)
      → ((b : B) → m ≡ ok b → Ensures P (f b))
      → Ensures P (m >>= f)
  Ensures-bind (ok b) f pf a h = pf b refl a h
  Ensures-bind (raised e) f pf a h = cc
  Ensures-bind undefined f pf a h = cc

-- A call that returns under both outcomes of a test, and one that returns behind another.
pub Returns-if {ℓ κ} :
    {A : Type ℓ} (P : A → Type κ) (b : Bool) (x y : Outcome A)
    → (b ≡ true → Returns x P)
    → (b ≡ false → Returns y P)
    → Returns (if b then x else y) P
Returns-if P true x y px py = px refl
Returns-if P false x y px py = py refl

pub Returns-then {ℓ κ ι} :
    {A : Type ℓ} {B : Type ι} (P : A → Type κ) (m : Outcome B) (f : B → A) (b : B)
    → m ≡ ok b
    → P (f b)
    → Returns (m >>= λ c. ok (f c)) P
Returns-then P m f b e p = (f b, ap (λ x. x >>= λ c. ok (f c)) e, p)
