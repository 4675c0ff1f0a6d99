-- ===== src/Store/Lru/Entries.antt =====
-- The list of kvstore/LRU: finding a node by its key or by its identity.
use kvjet.Prelude.{
  Bool-contra, ℕ, false, List, [], ◌∷◌, ◌++◌, Option, none, some, Bytes, if◌then◌else◌, ◌=ᵇ◌, ◌≡◌,
  refl, sym, ◌∙◌, ap, Bool-cases, arith, =ᵇ→eq, =ᵇ_iff, ◌≢◌, inl, inr,
}
use kvjet.Prelude.Outcome.{ok}
use kvjet.Store.Lru.{Entry, erase_at}

unfoldable pub id_of : List Entry → Bytes → Option ℕ
id_of [] k = none
id_of (e ∷ lst) k = let rest = id_of lst k in if k =ᵇ e.key then some e.id else rest

-- No entry has the identity.
abbrev pub Lacks : ℕ → List Entry → Type 0
Lacks i [] = Unit
Lacks i (e ∷ lst) = (e.id ≢ i) × Lacks i lst

-- No two entries have the same key or the same identity.
abbrev pub AreApart : List Entry → Type 0
AreApart [] = Unit
AreApart (e ∷ lst) = (id_of lst e.key ≡ none) × Lacks e.id lst × AreApart lst

-- The list without the first entry for the key.
unfoldable pub without : Bytes → List Entry → List Entry
without k [] = []
without k (e ∷ lst) = let rest = without k lst in if k =ᵇ e.key then lst else e ∷ rest

id_of-Lacks : (lst : List Entry) (k : Bytes) (i j : ℕ) → Lacks i lst → id_of lst k ≡ some j → j ≢ i
unfolding id_of
id_of-Lacks [] k i j h e = cc
id_of-Lacks (x ∷ lst) k i j h e = elim (Bool-cases (k =ᵇ x.key)) [
  | inl s ↦ ground (arith, e, s, h.0)
  | inr s ↦ id_of-Lacks lst k i j h.1 (ground (arith, e, s))
]

pub erase_at-without :
    (lst : List Entry) (k : Bytes) (i : ℕ)
    → AreApart lst
    → id_of lst k ≡ some i
    → erase_at i lst ≡ ok (without k lst)
unfolding id_of without erase_at
erase_at-without [] k i h e = cc
erase_at-without (x ∷ lst) k i h e = elim (Bool-cases (k =ᵇ x.key)) [
  | inl s ↦ ground (arith, e, s)
  | inr s ↦
      let below : id_of lst k ≡ some i = ground (arith, e, s) in
      let other = id_of-Lacks lst k x.id i h.1 below in
      let rest = erase_at-without lst k i h.2 below in ground (arith, s, other, rest)
]

=ᵇ_swap : (k other key : Bytes) → (k =ᵇ key) ≡ false → other ≡ key → (other =ᵇ k) ≡ false
=ᵇ_swap k other key h e = elim (Bool-cases (other =ᵇ k)) [
  | inr n ↦ n
  | inl y ↦ absurd (Bool-contra _ ((=ᵇ_iff k key).1 (sym (=ᵇ→eq other k y) ∙ e)) h)
]

pub id_of-without :
    (lst : List Entry) (k other : Bytes)
    → AreApart lst
    → id_of (without k lst) other ≡ (if other =ᵇ k then none else id_of lst other)
unfolding id_of without
id_of-without [] k other h = ground arith
id_of-without (x ∷ lst) k other h = elim (Bool-cases (k =ᵇ x.key)) [
  | inl s ↦ elim (Bool-cases (other =ᵇ k)) [
    | inl t ↦ rw (s, t) (ap (id_of lst) (=ᵇ→eq other k t ∙ =ᵇ→eq k x.key s) ∙ h.0)
    | inr t ↦
        let u : (other =ᵇ x.key) ≡ false = ap (◌=ᵇ◌ other) (sym (=ᵇ→eq k x.key s)) ∙ t in
        rw (s, t, u) refl
  ]
  | inr s ↦
      let rest = id_of-without lst k other h.2 in
      elim (Bool-cases (other =ᵇ x.key)) [
        | inl t ↦
            let u : (other =ᵇ k) ≡ false = =ᵇ_swap k other x.key s (=ᵇ→eq other x.key t) in
            rw (s, t, u) refl
        | inr t ↦ rw (s, t) rest
      ]
]

Lacks-without : (lst : List Entry) (k : Bytes) (i : ℕ) → Lacks i lst → Lacks i (without k lst)
unfolding without
Lacks-without [] k i h = tt
Lacks-without (x ∷ lst) k i h = elim (Bool-cases (k =ᵇ x.key)) [
  | inl s ↦ rw s h.1
  | inr s ↦ rw s (h.0, Lacks-without lst k i h.1)
]

pub AreApart-without : (lst : List Entry) (k : Bytes) → AreApart lst → AreApart (without k lst)
unfolding without
AreApart-without [] k h = tt
AreApart-without (x ∷ lst) k h = elim (Bool-cases (k =ᵇ x.key)) [
  | inl s ↦ rw s h.2
  | inr s ↦ rw s (
    id_of-without lst k x.key h.2 ∙ ground (arith, h.0),
    Lacks-without lst k x.id h.1,
    AreApart-without lst k h.2,
  )
]

pub id_of-append :
    (lst : List Entry) (e : Entry) (k : Bytes)
    → id_of lst e.key ≡ none
    → id_of (lst ++ e ∷ []) k ≡ (if k =ᵇ e.key then some e.id else id_of lst k)
unfolding id_of
id_of-append [] e k h = refl
id_of-append (x ∷ lst) e k h =
    let apart : (e.key =ᵇ x.key) ≡ false = ground (arith, h) in
    let rest : id_of lst e.key ≡ none = ground (arith, h) in
    elim (Bool-cases (k =ᵇ x.key)) [
      | inl s ↦ let other = =ᵇ_swap e.key k x.key apart (=ᵇ→eq k x.key s) in rw (s, other) refl
      | inr s ↦ rw s (id_of-append lst e k rest)
    ]

Lacks-append :
    (lst : List Entry) (e : Entry) (i : ℕ) → Lacks i lst → e.id ≢ i → Lacks i (lst ++ e ∷ [])
Lacks-append [] e i h other = (other, tt)
Lacks-append (x ∷ lst) e i h other = (h.0, Lacks-append lst e i h.1 other)

pub AreApart-append :
    (lst : List Entry) (e : Entry)
    → AreApart lst
    → id_of lst e.key ≡ none
    → Lacks e.id lst
    → AreApart (lst ++ e ∷ [])
unfolding id_of
AreApart-append [] e h absent lacks = (refl, tt, tt)
AreApart-append (x ∷ lst) e h absent lacks =
    let apart : (e.key =ᵇ x.key) ≡ false = ground (arith, absent) in
    let rest : id_of lst e.key ≡ none = ground (arith, absent) in
    let other = =ᵇ_swap e.key x.key x.key apart refl in
    (
      id_of-append lst e x.key rest ∙ rw (other, h.0) refl,
      Lacks-append lst e x.id h.1 (λ same. lacks.0 (sym same)),
      AreApart-append lst e h.2 rest lacks.1,
    )
