-- ===== src/Store/Lru/Evict.antt =====
-- kvstore/LRU: `set` and the key that it evicts.
use kvjet.Prelude.{
  ℕ, ◌<◌, true, false, List, [], ◌∷◌, Option, none, some, Bytes, length, ltb, if◌then◌else◌, ◌=ᵇ◌,
  ◌≡◌, refl, sym, ◌∙◌, ap, Bool-cases, arith, =ᵇ→eq, subst, inl, inr, Option-cases,
}
use kvjet.Prelude.Outcome.{ok, Returns}
use kvjet.Store.HashTable.{HashTable}
use kvjet.Store.HashTable.Vacancy.{empties}
use kvjet.Store.HashTable.Map.{get-lookup}
use kvjet.Store.HashTable.Update.{erase-Erased}
use kvjet.Store.Lru.{Entry, Lru, evict, set}
use kvjet.Store.Lru.Entries.{id_of}
use kvjet.Store.Lru.Order.{keys, member, spec_trim, spec_set, member-id_of, length-keys}
use kvjet.Store.Lru.Linked.{IsLinked, add-Added, refresh-Kept}

-- What a `set` leaves, with the key that it evicts.
pub record Sets (l : Lru) (spec : Option Bytes × List Bytes) (r : Option Bytes × Lru) : Type 0 where
  pub linked : IsLinked r.1
  pub evicted : r.0 ≡ spec.0
  pub order : keys r.1.lst ≡ spec.1
  pub limit : r.1.maxsz ≡ l.maxsz

-- The front of the list is evicted from both.
evict_front :
    (l : Lru) (maxsz fresh : ℕ) (hash : HashTable ℕ) (e : Entry) (rest : List Entry)
    → IsLinked (record { maxsz = maxsz; lst = e ∷ rest; hash = hash; fresh = fresh })
    → maxsz ≡ l.maxsz
    → 0 < empties hash.buckets
    → ltb maxsz (length (e ∷ rest)) ≡ true
    → Returns
        (evict (record { maxsz = maxsz; lst = e ∷ rest; hash = hash; fresh = fresh }))
        (Sets l (some e.key, keys rest))
unfolding evict id_of
evict_front l maxsz fresh hash e rest h limit room big =
    let r = erase-Erased 0 hash e.key h.valid room in
    (
      (some e.key, record { maxsz = maxsz; lst = rest; hash = r.0.0; fresh = fresh }),
      rw (big, r.1) refl,
      record {
        linked = record {
          valid = r.2.valid;
          linked = λ k. r.2.maps k ∙ unlink k (h.linked k);
          apart = h.apart.2;
          below = h.below.1;
        };
        evicted = refl;
        order = refl;
        limit = limit;
      },
    )
  where
    unlink :
        (k : Bytes) {o : Option ℕ}
        → o ≡ id_of (e ∷ rest) k
        → (if k =ᵇ e.key then none else o) ≡ id_of rest k
    unlink k h' = elim (Bool-cases (k =ᵇ e.key)) [
      | inl s ↦ rw s (sym (ap (id_of rest) (=ᵇ→eq k e.key s) ∙ h.apart.0))
      | inr s ↦ rw s (h' ∙ rw s refl)
    ]

evict_from :
    (l : Lru) (maxsz fresh : ℕ) (hash : HashTable ℕ) (lst : List Entry)
    → IsLinked (record { maxsz = maxsz; lst = lst; hash = hash; fresh = fresh })
    → maxsz ≡ l.maxsz
    → 0 < empties hash.buckets
    → Returns
        (evict (record { maxsz = maxsz; lst = lst; hash = hash; fresh = fresh }))
        (Sets l (spec_trim maxsz (keys lst)))
unfolding evict
evict_from l maxsz fresh hash [] h limit room =
    let small : ltb maxsz 0 ≡ false = ground arith in
    (_, rw small refl, record { linked = h; evicted = refl; order = refl; limit = limit })
evict_from l maxsz fresh hash (e ∷ rest) h limit room =
    elim (Bool-cases (ltb maxsz (length (e ∷ rest)))) [
      | inl big ↦
          let spec : ltb maxsz (length (keys (e ∷ rest))) ≡ true =
            ap (ltb maxsz) (length-keys (e ∷ rest)) ∙ big in
          rw spec (evict_front l maxsz fresh hash e rest h limit room big)
      | inr small ↦
          let spec : ltb maxsz (length (keys (e ∷ rest))) ≡ false =
            ap (ltb maxsz) (length-keys (e ∷ rest)) ∙ small in
          let m : Lru = record { maxsz = maxsz; lst = e ∷ rest; hash = hash; fresh = fresh } in
          (
            (none, m),
            rw small refl,
            rw spec (record { linked = h; evicted = refl; order = refl; limit = limit }),
          )
    ]

evict-Sets :
    (l m : Lru)
    → IsLinked m
    → m.maxsz ≡ l.maxsz
    → 0 < empties m.hash.buckets
    → Returns (evict m) (Sets l (spec_trim l.maxsz (keys m.lst)))
evict-Sets l m h limit room =
    subst (λ n. Returns (evict m) (Sets l (spec_trim n (keys m.lst)))) limit
      (evict_from l m.maxsz m.fresh m.hash m.lst h limit room)

-- The list and the table agree, and the table has two empty slots left.
-- A `set` returns; its answer and the new order of the keys are those of the specification.
pub set-Sets :
    (x : Bytes) (l : Lru)
    → IsLinked l
    → 1 < empties l.hash.buckets
    → Returns (set x l) (Sets l (spec_set l.maxsz x (keys l.lst)))
unfolding set spec_set
set-Sets x l h room =
    let reads = get-lookup 0 l.hash x h.valid (omega arith) ∙ ap ok (h.linked x) in
    elim (Option-cases (id_of l.lst x)) [
      | inl e ↦
          let absent : member x (keys l.lst) ≡ false = ground (arith, member-id_of l.lst x, e) in
          let m = add-Added x l h.valid (λ k _. h.linked k) h.apart h.below e (omega arith) in
          let r = evict-Sets l m.0 m.2.linked m.2.limit (omega (arith, m.2.room)) in
          (
            r.0,
            rw (reads, e, m.1) r.1,
            rw absent (subst (λ ks. Sets l (spec_trim l.maxsz ks) r.0) m.2.order r.2),
          )
      | inr (i, e) ↦
          let here : member x (keys l.lst) ≡ true = ground (arith, member-id_of l.lst x, e) in
          let m = refresh-Kept x l i h e (omega arith) in
          (
            (none, m.0),
            rw (reads, e, m.1) refl,
            rw here (record {
              linked = m.2.linked;
              evicted = refl;
              order = m.2.order;
              limit = m.2.limit;
            }),
          )
    ]
