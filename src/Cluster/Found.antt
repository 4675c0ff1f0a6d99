-- ===== src/Cluster/Found.antt =====
-- util/Cluster: with enough nodes on the ring `queryReplicas` returns.
use kvjet.Prelude.{
  ℕ, zero, suc, ◌+◌, true, List, [], ◌∷◌, ◌++◌, Option, some, Bytes, ltb, leb, ◌==◌, ◌≡◌, refl, sym,
  ap, subst, Bool-cases, arith, ==_iff, inl, inr, All, All-map, ==_refl, ◌≤◌, length, ◌⊎◌, ltb→lt,
  ◌*◌,
}
use kvjet.Prelude.Assoc.{Assoc}
use kvjet.Cluster.{Cluster, contains, wrap, from_bound, collect, query_replicas, hash_string}
use kvjet.Cluster.Replicas.{AreDistinct, AllIn, pigeonhole, add_owner}

abbrev pub owners : Assoc ℕ → List ℕ
owners [] = []
owners (p ∷ m) = p.1 ∷ owners m

contains-append_left :
    (z x : ℕ) (xs : List ℕ) → contains z xs ≡ true → contains z (xs ++ x ∷ []) ≡ true
contains-append_left z x [] h = cc
contains-append_left z x (y ∷ xs) h = ground (arith, h, contains-append_left z x xs)

contains-append_last : (x : ℕ) (xs : List ℕ) → contains x (xs ++ x ∷ []) ≡ true
contains-append_last x [] = ground arith
contains-append_last x (y ∷ xs) = ground (arith, contains-append_last x xs)

add_owner_keeps :
    (z x : ℕ) (result : List ℕ) → contains z result ≡ true → contains z (add_owner x result) ≡ true
add_owner_keeps z x result h = elim (Bool-cases (contains x result)) [
  | inl e ↦ rw e h
  | inr e ↦ rw e (contains-append_left z x result h)
]

add_owner_has : (x : ℕ) (result : List ℕ) → contains x (add_owner x result) ≡ true
add_owner_has x result = elim (Bool-cases (contains x result)) [
  | inl e ↦ rw e e
  | inr e ↦ rw e (contains-append_last x result)
]

-- What the results do not have is still to come.
abbrev IsCovered : Assoc ℕ → List ℕ → ℕ × ℕ → Type 0
IsCovered it result p = (contains p.1 result ≡ true) ⊎ (contains p.1 (owners it) ≡ true)

advance :
    (p q : ℕ × ℕ) (it : Assoc ℕ) (result : List ℕ)
    → IsCovered (p ∷ it) result q
    → IsCovered it (add_owner p.1 result) q
advance p q it result (inl h) = inl (add_owner_keeps q.1 p.1 result h)
advance p q it result (inr h) = elim (Bool-cases (q.1 == p.1)) [
  | inl e ↦ inl (
      subst (λ x. contains x (add_owner p.1 result) ≡ true) (sym ((==_iff q.1 p.1).0 e))
        (add_owner_has p.1 result))
  | inr e ↦ inr (ground (arith, h, e))
]

owners_within :
    (m : Assoc ℕ) (result : List ℕ) (z : ℕ)
    → All (IsCovered [] result) m
    → contains z (owners m) ≡ true
    → contains z result ≡ true
owners_within [] result z all h = cc
owners_within (p ∷ m) result z all h = elim (Bool-cases (z == p.1)) [
  | inl e ↦ elim all.0 [
    | inl g ↦ subst (λ x. contains x result ≡ true) (sym ((==_iff z p.1).0 e)) g
    | inr g ↦ absurd (cc)
  ]
  | inr e ↦ owners_within m result z all.1 (ground (arith, h, e))
]

each_coming : (m : Assoc ℕ) (result : List ℕ) → All (IsCovered m result) m
each_coming m result = go m m (λ z h. h)
  where
    go :
        (m ms : Assoc ℕ)
        → ((z : ℕ) → contains z (owners ms) ≡ true → contains z (owners m) ≡ true)
        → All (IsCovered m result) ms
    go m [] f = tt
    go m (p ∷ ms) f =
        (inr (f p.1 (rw (==_refl p.1) refl)), go m ms (λ z h. f z (ground (arith, h))))

module _ (m : Assoc ℕ) (n : ℕ) (nodes : List ℕ) (differ : AreDistinct nodes)
    (present : AllIn (owners m) nodes) (enough : n ≤ length nodes) where
  abbrev Ends : Option (List ℕ) → Type 0
  Ends o = (r : List ℕ) × (o ≡ some r)

  -- A round that goes on only if the results are too few.
  round :
      (rounds : ℕ) (p : ℕ × ℕ) (rest : Assoc ℕ) (result : List ℕ)
      → (ltb (length (add_owner p.1 result)) n ≡ true
          → Ends (collect rounds m n (wrap rest m) (add_owner p.1 result)))
      → Ends (collect (suc rounds) m n (p ∷ rest) result)
  unfolding collect
  round rounds p rest result on =
      elim (Bool-cases (leb (length m) (length (add_owner p.1 result)))) [
        | inl e ↦ (add_owner p.1 result, rw e refl)
        | inr e ↦ elim (Bool-cases (ltb (length (add_owner p.1 result)) n)) [
          | inl few ↦ let r = on few in (r.0, rw (e, few) r.1)
          | inr all ↦ (add_owner p.1 result, rw (e, all) refl)
        ]
      ]

  enough_found : (result : List ℕ) → All (IsCovered [] result) m → ltb (length result) n ≡ true → ⊥
  enough_found result all few =
      let bound =
        pigeonhole nodes result differ
          (All-map _ _ nodes (λ z h. owners_within m result z all h) present) in
      omega (arith, ltb→lt _ _ few, bound, enough)

  second_pass :
      (rounds : ℕ) (p : ℕ × ℕ) (it : Assoc ℕ) (result : List ℕ)
      → length (p ∷ it) ≤ rounds
      → All (IsCovered (p ∷ it) result) m
      → Ends (collect rounds m n (p ∷ it) result)
  second_pass zero p it result h all = absurd (omega arith)
  second_pass (suc rounds) p [] result h all = round rounds p [] result λ few.
      absurd
        (enough_found (add_owner p.1 result) (All-map _ _ m (λ q. advance p q [] result) all) few)
  second_pass (suc rounds) p (q ∷ it) result h all = round rounds p (q ∷ it) result λ _.
      second_pass rounds q it (add_owner p.1 result) (omega arith)
        (All-map _ _ m (λ x. advance p x (q ∷ it) result) all)

  first_pass :
      (p₀ : ℕ × ℕ) (m₀ : Assoc ℕ)
      → m ≡ p₀ ∷ m₀
      → (rounds : ℕ) (p : ℕ × ℕ) (it : Assoc ℕ) (result : List ℕ)
      → length (p ∷ it) + length m ≤ rounds
      → Ends (collect rounds m n (p ∷ it) result)
  first_pass p₀ m₀ e zero p it result h = absurd (omega arith)
  first_pass p₀ m₀ e (suc rounds) p [] result h = round rounds p [] result λ _.
      subst (λ x. Ends (collect rounds m n x (add_owner p.1 result))) (sym e)
        (second_pass rounds p₀ m₀ (add_owner p.1 result) (omega (arith, h, ap length e)) (
          subst (λ x. All (IsCovered x (add_owner p.1 result)) m) e
            (each_coming m (add_owner p.1 result))))
  first_pass p₀ m₀ e (suc rounds) p (q ∷ it) result h =
      round rounds p (q ∷ it) result
        λ _. first_pass p₀ m₀ e rounds q it (add_owner p.1 result) (omega arith)

length-from_bound : (h : ℕ) (m : Assoc ℕ) → length (from_bound h m) ≤ length m
length-from_bound h [] = omega arith
length-from_bound h (p ∷ m) = ground (arith, length-from_bound h m)

-- If the points of the ring belong to at least as many different nodes as replicas are asked for,
-- `queryReplicas` returns after at most two rounds over the ring.
pub query_replicas_returns :
    (key : Bytes) (n : ℕ) (c : Cluster) (nodes : List ℕ)
    → AreDistinct nodes
    → AllIn (owners c.node_hash) nodes
    → n ≤ length nodes
    → (r : List ℕ) × (query_replicas (2 * length c.node_hash) key n c ≡ some r)
unfolding query_replicas
query_replicas_returns key n c nodes differ present enough = go c.node_hash refl present
  where
    pass :
        (p : ℕ × ℕ) (m x : Assoc ℕ)
        → AllIn (owners (p ∷ m)) nodes
        → length x ≤ length (p ∷ m)
        → (r : List ℕ) × (collect (2 * length (p ∷ m)) (p ∷ m) n (wrap x (p ∷ m)) [] ≡ some r)
    pass p m [] here h =
        first_pass (p ∷ m) n nodes differ here enough p m refl (2 * length (p ∷ m)) p m []
          (omega arith)
    pass p m (q ∷ x) here h =
        first_pass (p ∷ m) n nodes differ here enough p m refl (2 * length (p ∷ m)) q x []
          (omega (arith, h))

    go :
        (m : Assoc ℕ)
        → c.node_hash ≡ m
        → AllIn (owners m) nodes
        → (r : List ℕ) × (query_replicas (2 * length c.node_hash) key n c ≡ some r)
    go [] e here = (c.self_node.uuid ∷ [], rw e refl)
    go (p ∷ m) e here = elim (Bool-cases (n == 0)) [
      | inl idle ↦ ([], rw (e, idle) refl)
      | inr busy ↦
          let r =
            pass p m (from_bound (hash_string key) (p ∷ m)) here
              (length-from_bound (hash_string key) (p ∷ m)) in
          (r.0, rw (e, busy) r.1)
    ]
