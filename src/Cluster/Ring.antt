-- ===== src/Cluster/Ring.antt =====
-- util/Cluster: nodes on the hash ring, and what a removed node leaves behind.
use kvjet.Prelude.{
  ℕ, zero, suc, true, false, List, [], ◌∷◌, some, Bytes, ltb, ◌==◌, ◌≡◌, ◌≢◌, refl, sym, ap, ◌∙◌,
  subst, Bool-cases, Bool-contra, arith, inl, inr, All, All-map, Option-cases, ==_refl,
}
use kvjet.Prelude.Assoc.{
  Assoc, insert, erase, lower_bound, erase-All, insert-All, lower_bound-erase,
  lower_bound-erase-none,
}
use kvjet.Prelude.Outcome.{Outcome, ok, raised, undefined, ◌>>=◌, Ensures, ok_inj}
use kvjet.Cluster.{
  Cluster, hash_number, add_points, del_points, virtual_replicas, add_node_to_hash,
  del_node_to_hash, first, point_of, query_node, contains, hash_string,
}

-- The points that `n` rounds of the loop give to a node.
unfoldable pub points : ℕ → ℕ → List ℕ
points zero hsh = []
points (suc n) hsh = hash_number hsh ∷ points n (hash_number hsh)

-- Every point of the ring is one of the points of its node.
abbrev pub IsOwned : ℕ × ℕ → Type 0
IsOwned p = contains p.0 (points virtual_replicas p.1) ≡ true

abbrev pub IsRing : Cluster → Type 0
IsRing c = All IsOwned c.node_hash

pub del_points-All {κ} :
    (P : ℕ × ℕ → Type κ) (n hsh : ℕ) (m : Assoc ℕ)
    → All P m
    → All (λ p. P p × (contains p.0 (points n hsh) ≡ false)) (del_points n hsh m)
unfolding points del_points
del_points-All P zero hsh m h = All-map P _ m (λ p q. (q, refl)) h
del_points-All P (suc n) hsh m h =
    All-map _ _ _ (λ p q. (q.0.0, ground (arith, q.0.1, q.1)))
      (del_points-All (λ p. P p × (p.0 ≢ hash_number hsh)) n (hash_number hsh)
        (erase (hash_number hsh) m) (erase-All P (hash_number hsh) m h))

-- Without the node: no point of the ring is of this node.
pub del-IsRing :
    (id : ℕ) (c : Cluster)
    → IsRing c
    → All (λ p. IsOwned p × (p.1 ≢ id)) (del_node_to_hash id c).node_hash
unfolding del_node_to_hash
del-IsRing id c ring =
    All-map _ _ _
      (λ p h. (
        h.0,
        λ same.
            Bool-contra _ h.0
              (subst (λ x. contains p.0 (points virtual_replicas x) ≡ false) (sym same) h.1),
      ))
      (del_points-All IsOwned virtual_replicas id c.node_hash ring)

lower_bound-All {κ} :
    (P : ℕ × ℕ → Type κ) (h : ℕ) (m : Assoc ℕ) (a : ℕ × ℕ)
    → All P m
    → lower_bound h m ≡ some a
    → P a
lower_bound-All P h [] a all e = absurd (cc)
lower_bound-All P h (p ∷ m) a all e = elim (Bool-cases (ltb p.0 h)) [
  | inl low ↦ lower_bound-All P h m a all.1 (rw low at e)
  | inr high ↦ subst P (some_inj (rw high at e)) all.0
]
  where
    some_inj : {x y : ℕ × ℕ} → some x ≡ some y → x ≡ y
    some_inj e = cc

first-All {κ} : (P : ℕ × ℕ → Type κ) (m : Assoc ℕ) → All P m → Ensures P (first m)
first-All P [] all a e = absurd (cc)
first-All P (p ∷ m) all a e = subst P (ok_inj e) all.0

-- The point that a key leads to is one of the ring.
point_of-All {κ} : (P : ℕ × ℕ → Type κ) (h : ℕ) (m : Assoc ℕ) → All P m → Ensures P (point_of h m)
point_of-All P h m all a e = elim (Option-cases (lower_bound h m)) [
  | inl low ↦ first-All P m all a (rw (low, point_of) at e)
  | inr (q, at_q) ↦ lower_bound-All P h m a all (at_q ∙ ap some (ok_inj (rw (at_q, point_of) at e)))
]

pub query_node-All :
    (Q : ℕ → Type 0) (str : Bytes) (c : Cluster)
    → All (λ p. Q p.1) c.node_hash
    → Ensures Q (query_node str c)
unfolding query_node
query_node-All Q str c all n e =
    go (point_of (hash_string str) c.node_hash)
      (point_of-All (λ p. Q p.1) (hash_string str) c.node_hash all) e
  where
    go : (m : Outcome (ℕ × ℕ)) → Ensures (λ p. Q p.1) m → (m >>= λ p. ok p.1) ≡ ok n → Q n
    go (ok p) h e = subst Q (ok_inj e) (h p refl)
    go (raised x) h e = absurd (cc)
    go undefined h e = absurd (cc)

add_points-Owned :
    (n hsh id : ℕ) (m : Assoc ℕ)
    → ((x : ℕ) → contains x (points n hsh) ≡ true → contains x (points virtual_replicas id) ≡ true)
    → All IsOwned m
    → All IsOwned (add_points n hsh id m)
unfolding add_points points
add_points-Owned zero hsh id m within h = h
add_points-Owned (suc n) hsh id m within h =
    add_points-Owned n (hash_number hsh) id (insert (hash_number hsh) id m)
      (λ x e. within x (ground (arith, e)))
      (insert-All IsOwned (hash_number hsh) id m
        (within (hash_number hsh) (rw (==_refl (hash_number hsh)) refl)) h)

pub add-IsRing : (id : ℕ) (c : Cluster) → IsRing c → IsRing (add_node_to_hash id c)
unfolding add_node_to_hash
add-IsRing id c h = add_points-Owned virtual_replicas id id c.node_hash (λ x e. e) h

-- Erasing another point than the one that a key leads to changes nothing for the key.
first-erase :
    (k : ℕ) (m : Assoc ℕ) (p : ℕ × ℕ) → first m ≡ ok p → p.0 ≢ k → first (erase k m) ≡ ok p
first-erase k [] p e apart = cc
first-erase k (q ∷ m) p e apart =
    let same : q ≡ p = ok_inj e in
    let other : (q.0 == k) ≡ false = ground (arith, apart, ap (λ x. x.0) same) in
    rw other (ap ok same)

point_of-erase :
    (h k : ℕ) (m : Assoc ℕ) (p : ℕ × ℕ)
    → point_of h m ≡ ok p
    → p.0 ≢ k
    → point_of h (erase k m) ≡ ok p
point_of-erase h k m p e apart = elim (Option-cases (lower_bound h m)) [
  | inl low ↦
      rw (lower_bound-erase-none h k m low, point_of)
        (first-erase k m p (rw (low, point_of) at e) apart)
  | inr (q, at_q) ↦
      rw
        (
          lower_bound-erase h k m p (at_q ∙ ap some (ok_inj (rw (at_q, point_of) at e))) apart,
          point_of,
        )
        refl
]

point_of-del_points :
    (h n hsh : ℕ) (m : Assoc ℕ) (p : ℕ × ℕ)
    → point_of h m ≡ ok p
    → contains p.0 (points n hsh) ≡ false
    → point_of h (del_points n hsh m) ≡ ok p
unfolding points del_points
point_of-del_points h zero hsh m p e out = e
point_of-del_points h (suc n) hsh m p e out =
    point_of-del_points h n (hash_number hsh) (erase (hash_number hsh) m) p
      (point_of-erase h (hash_number hsh) m p e (ground (arith, out))) (ground (arith, out))

-- No other node holds a point of the node `id`.
abbrev pub HasOwnPoints : ℕ → Cluster → Type 0
HasOwnPoints id c =
    All (λ p. contains p.0 (points virtual_replicas id) ≡ true → p.1 ≡ id) c.node_hash

-- Removing a node from the ring moves no key of another node, if no other node holds one of its points.
pub query-del :
    (id n : ℕ) (str : Bytes) (c : Cluster)
    → HasOwnPoints id c
    → query_node str c ≡ ok n
    → n ≢ id
    → query_node str (del_node_to_hash id c) ≡ ok n
unfolding query_node del_node_to_hash
query-del id n str c own e other = go (point_of (hash_string str) c.node_hash) refl e
  where
    go :
        (m : Outcome (ℕ × ℕ))
        → point_of (hash_string str) c.node_hash ≡ m
        → (m >>= λ p. ok p.1) ≡ ok n
        → (point_of (hash_string str) (del_points virtual_replicas id c.node_hash) >>= λ p. ok p.1)
          ≡ ok n
    go (ok p) at_p e =
        let holds =
          point_of-All (λ p. contains p.0 (points virtual_replicas id) ≡ true → p.1 ≡ id)
            (hash_string str) c.node_hash own p at_p in
        let out : contains p.0 (points virtual_replicas id) ≡ false =
          elim (Bool-cases (contains p.0 (points virtual_replicas id))) [
            | inr o ↦ o
            | inl i ↦ absurd (other (sym (ok_inj e) ∙ holds i))
          ] in
        rw (point_of-del_points (hash_string str) virtual_replicas id c.node_hash p at_p out) e
    go (raised x) at_p e = absurd (cc)
    go undefined at_p e = absurd (cc)
