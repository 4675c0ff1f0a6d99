-- ===== src/Cluster/Replicas.antt =====
-- util/Cluster: `queryReplicas`.
use kvjet.Prelude.{
  ℕ, zero, suc, true, false, List, [], ◌∷◌, ◌++◌, none, Bytes, ltb, leb, ◌==◌, if◌then◌else◌, ◌≡◌,
  ◌≢◌, refl, Bool-cases, arith, inl, inr, All, ◌<◌, ◌≤◌, length,
}
use kvjet.Prelude.Assoc.{Assoc}
use kvjet.Cluster.{Cluster, contains, wrap, from_bound, collect, query_replicas, hash_string}

-- No element occurs twice.
abbrev pub AreDistinct : List ℕ → Type 0
AreDistinct [] = Unit
AreDistinct (x ∷ xs) = (contains x xs ≡ false) × AreDistinct xs

abbrev pub AllIn : List ℕ → List ℕ → Type 0
AllIn ys xs = All (λ x. contains x ys ≡ true) xs

-- The list without the element.
drop : ℕ → List ℕ → List ℕ
drop x [] = []
drop x (y ∷ ys) = let rest = drop x ys in if x == y then ys else y ∷ rest

length-drop : (x : ℕ) (ys : List ℕ) → contains x ys ≡ true → length ys ≡ suc (length (drop x ys))
unfolding drop
length-drop x [] h = cc
length-drop x (y ∷ ys) h = ground (arith, h, length-drop x ys)

contains-drop :
    (x z : ℕ) (ys : List ℕ) → contains z ys ≡ true → z ≢ x → contains z (drop x ys) ≡ true
unfolding drop
contains-drop x z [] h other = cc
contains-drop x z (y ∷ ys) h other = ground (arith, h, other, contains-drop x z ys)

AllIn-drop : (x : ℕ) (ys xs : List ℕ) → contains x xs ≡ false → AllIn ys xs → AllIn (drop x ys) xs
AllIn-drop x ys [] h all = tt
AllIn-drop x ys (z ∷ xs) h all = (
  contains-drop x z ys all.0 (λ e. ground (arith, h, e)),
  AllIn-drop x ys xs (ground (arith, h)) all.1,
)

-- A list without repetition is no longer than a list that has all its elements.
pub pigeonhole : (xs ys : List ℕ) → AreDistinct xs → AllIn ys xs → length xs ≤ length ys
pigeonhole [] ys d all = omega arith
pigeonhole (x ∷ xs) ys d all =
    omega
      (arith, length-drop x ys all.0, pigeonhole xs (drop x ys) d.1 (AllIn-drop x ys xs d.0 all.1))

contains-append :
    (x z : ℕ) (xs : List ℕ) → contains z (xs ++ x ∷ []) ≡ false → contains z xs ≡ false
contains-append x z [] h = refl
contains-append x z (y ∷ xs) h = ground (arith, h, contains-append x z xs)

append_contains :
    (x z : ℕ) (xs : List ℕ) → contains z xs ≡ false → z ≢ x → contains z (xs ++ x ∷ []) ≡ false
append_contains x z [] h other = ground (arith, other)
append_contains x z (y ∷ xs) h other = ground (arith, h, append_contains x z xs)

AreDistinct-append :
    (x : ℕ) (xs : List ℕ) → AreDistinct xs → contains x xs ≡ false → AreDistinct (xs ++ x ∷ [])
AreDistinct-append x [] d h = (refl, tt)
AreDistinct-append x (y ∷ xs) d h = (
  append_contains x y xs d.0 (λ e. ground (arith, h, e)),
  AreDistinct-append x xs d.1 (ground (arith, h)),
)

AllIn-append :
    (x : ℕ) (xs ys : List ℕ) → AllIn ys xs → contains x ys ≡ true → AllIn ys (xs ++ x ∷ [])
AllIn-append x [] ys all h = (h, tt)
AllIn-append x (z ∷ xs) ys all h = (all.0, AllIn-append x xs ys all.1 h)

wrap-All {κ} : (P : ℕ × ℕ → Type κ) (rest m : Assoc ℕ) → All P rest → All P m → All P (wrap rest m)
wrap-All P [] m h g = g
wrap-All P (p ∷ rest) m h g = h

from_bound-All {κ} : (P : ℕ × ℕ → Type κ) (h : ℕ) (m : Assoc ℕ) → All P m → All P (from_bound h m)
from_bound-All P h [] g = tt
from_bound-All P h (p ∷ m) g = elim (Bool-cases (ltb p.0 h)) [
  | inl e ↦ rw e (from_bound-All P h m g.1)
  | inr e ↦ rw e g
]

-- The node of every point is in the list.
abbrev pub HasOwners : List ℕ → Assoc ℕ → Type 0
HasOwners owners m = All (λ p. contains p.1 owners ≡ true) m

-- One round more keeps the results different, and among the owners.
abbrev pub add_owner : ℕ → List ℕ → List ℕ
add_owner x result = if contains x result then result else result ++ x ∷ []

add_owner-AreDistinct :
    (x : ℕ) (result : List ℕ) → AreDistinct result → AreDistinct (add_owner x result)
add_owner-AreDistinct x result d = elim (Bool-cases (contains x result)) [
  | inl e ↦ rw e d
  | inr e ↦ rw e (AreDistinct-append x result d e)
]

add_owner-AllIn :
    (x : ℕ) (owners result : List ℕ)
    → AllIn owners result
    → contains x owners ≡ true
    → AllIn owners (add_owner x result)
add_owner-AllIn x owners result h g = elim (Bool-cases (contains x result)) [
  | inl e ↦ rw e h
  | inr e ↦ rw e (AllIn-append x result owners h g)
]

collect_runs_on :
    (rounds : ℕ) (m : Assoc ℕ) (n : ℕ) (it : Assoc ℕ) (result owners : List ℕ)
    → HasOwners owners m
    → HasOwners owners it
    → AreDistinct result
    → AllIn owners result
    → length owners < n
    → length owners < length m
    → collect rounds m n it result ≡ none
unfolding collect
collect_runs_on zero m n it result owners hm hi d a few small = refl
collect_runs_on (suc rounds) m n [] result owners hm hi d a few small = refl
collect_runs_on (suc rounds) m n (p ∷ rest) result owners hm hi d a few small =
    let d₁ = add_owner-AreDistinct p.1 result d in
    let a₁ = add_owner-AllIn p.1 owners result a hi.0 in
    let bound = pigeonhole (add_owner p.1 result) owners d₁ a₁ in
    let go_on =
      collect_runs_on rounds m n (wrap rest m) (add_owner p.1 result) owners hm
        (wrap-All _ rest m hi.1 hm) d₁ a₁ few small in
    let not_all : leb (length m) (length (add_owner p.1 result)) ≡ false =
      ground (arith, bound, small) in
    let wanted : ltb (length (add_owner p.1 result)) n ≡ true = ground (arith, bound, few) in
    rw (not_all, wanted) go_on

-- If the points of the ring belong to fewer nodes than replicas are asked for, and there are more
-- points than nodes, then `queryReplicas` never returns: however many rounds it has made, it goes on.
pub query_replicas_runs_on :
    (rounds : ℕ) (key : Bytes) (n : ℕ) (c : Cluster) (owners : List ℕ)
    → HasOwners owners c.node_hash
    → length owners < n
    → length owners < length c.node_hash
    → query_replicas rounds key n c ≡ none
unfolding query_replicas
query_replicas_runs_on rounds key n c owners has few small = go c.node_hash refl has small
  where
    go :
        (m : Assoc ℕ)
        → c.node_hash ≡ m
        → HasOwners owners m
        → length owners < length m
        → query_replicas rounds key n c ≡ none
    go [] e h l = absurd (omega arith)
    go (p ∷ m) e h l =
        let some_wanted : (n == 0) ≡ false = ground (arith, few) in
        rw (e, some_wanted)
          (collect_runs_on rounds (p ∷ m) n _ [] owners h
            (wrap-All _ (from_bound (hash_string key) (p ∷ m)) (p ∷ m)
              (from_bound-All _ (hash_string key) (p ∷ m) h) h)
            tt tt few l)
