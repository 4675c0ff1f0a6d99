-- ===== src/Store/Lru/Linked.antt =====
-- kvstore/LRU: each operation on the list and the hash table does what the specification says.
use kvjet.Store.Lru.{clear}
use kvjet.Prelude.{
  ℕ, suc, ◌+◌, ◌<◌, ◌≤◌, false, List, [], ◌∷◌, ◌++◌, none, some, Bytes, if◌then◌else◌, ◌=ᵇ◌, ◌≡◌,
  refl, sym, ◌∙◌, ap, Bool-cases, arith, =ᵇ_refl, inl, inr, Option-cases, All,
}
use kvjet.Prelude.Outcome.{ok, Returns}
use kvjet.Store.HashTable.Placed.{lookup}
use kvjet.Store.HashTable.Search.{IsValid}
use kvjet.Store.HashTable.Vacancy.{empties}
use kvjet.Store.HashTable.Map.{get-lookup}
use kvjet.Store.HashTable.Update.{set-Stored, erase-Erased}
use kvjet.Store.HashTable.Growth.{new-IsValid, new-lookup}
use kvjet.Store.Lru.{Entry, Lru, add, refresh, access, del, new}
use kvjet.Store.Lru.Entries.{
  id_of, Lacks, AreApart, without, erase_at-without, id_of-without, AreApart-without, id_of-append,
  AreApart-append,
}
use kvjet.Store.Lru.Order.{
  keys, drop_key, spec_refresh, spec_access, keys-append, keys-without, member-id_of,
  drop_key_absent,
}

-- The hash table has for each key the node of the list that holds it.
pub record IsLinked (l : Lru) : Type 0 where
  pub valid : IsValid 0 l.hash
  pub linked : (k : Bytes) → lookup l.hash.buckets k ≡ id_of l.lst k
  pub apart : AreApart l.lst
  pub below : All (λ e. e.id < l.fresh) l.lst

below-Lacks : (lst : List Entry) (n i : ℕ) → All (λ e. e.id < n) lst → n ≤ i → Lacks i lst
below-Lacks [] n i h le = tt
below-Lacks (x ∷ lst) n i h le = ((λ e. omega (arith, h.0)), below-Lacks lst n i h.1 le)

below-append :
    (lst : List Entry) (e : Entry) (n m : ℕ)
    → All (λ e. e.id < n) lst
    → n ≤ m
    → e.id < m
    → All (λ e. e.id < m) (lst ++ e ∷ [])
below-append [] e n m h le lt = (lt, tt)
below-append (x ∷ lst) e n m h le lt = (omega (arith, h.0), below-append lst e n m h.1 le lt)

below-without :
    (lst : List Entry) (k : Bytes) (n : ℕ)
    → All (λ e. e.id < n) lst
    → All (λ e. e.id < n) (without k lst)
unfolding without
below-without [] k n h = tt
below-without (x ∷ lst) k n h = elim (Bool-cases (k =ᵇ x.key)) [
  | inl s ↦ rw s h.1
  | inr s ↦ rw s (h.0, below-without lst k n h.1)
]

-- The key stands at the end of the list.
pub record Added (x : Bytes) (l m : Lru) : Type 0 where
  pub linked : IsLinked m
  pub order : keys m.lst ≡ keys l.lst ++ x ∷ []
  pub limit : m.maxsz ≡ l.maxsz
  pub room : empties l.hash.buckets ≤ suc (empties m.hash.buckets)

pub add-Added :
    (x : Bytes) (l : Lru)
    → IsValid 0 l.hash
    → ((k : Bytes) → (k =ᵇ x) ≡ false → lookup l.hash.buckets k ≡ id_of l.lst k)
    → AreApart l.lst
    → All (λ e. e.id < l.fresh) l.lst
    → id_of l.lst x ≡ none
    → 0 < empties l.hash.buckets
    → Returns (add x l) (Added x l)
unfolding add
add-Added x l valid others apart below absent room =
    let h = set-Stored 0 l.hash x l.fresh valid room in
    let e : Entry = record { id = l.fresh; key = x } in
    (
      record l { lst = l.lst ++ e ∷ []; hash = h.0; fresh = l.fresh + 1 },
      rw h.1 refl,
      record {
        linked = record {
          valid = h.2.valid;
          linked = λ k. h.2.maps k ∙ agree k (others k) ∙ sym (id_of-append l.lst e k absent);
          apart =
              AreApart-append l.lst e apart absent
                (below-Lacks l.lst l.fresh l.fresh below (omega arith));
          below = below-append l.lst e l.fresh (l.fresh + 1) below (omega arith) (omega arith);
        };
        order = keys-append l.lst e;
        limit = refl;
        room = h.2.room;
      },
    )
  where
    agree :
        (k : Bytes)
        → ((k =ᵇ x) ≡ false → lookup l.hash.buckets k ≡ id_of l.lst k)
        → (if k =ᵇ x then some l.fresh else lookup l.hash.buckets k)
          ≡ (if k =ᵇ x then some l.fresh else id_of l.lst k)
    agree k h = elim (Bool-cases (k =ᵇ x)) [ inl s ↦ rw s refl | inr s ↦ rw s (h s) ]

-- What a call leaves: the links are kept, and at most one empty slot of the hash table is used up.
pub record Kept (l : Lru) (spec : List Bytes) (m : Lru) : Type 0 where
  pub linked : IsLinked m
  pub order : keys m.lst ≡ spec
  pub limit : m.maxsz ≡ l.maxsz
  pub room : empties l.hash.buckets ≤ suc (empties m.hash.buckets)

pub refresh-Kept :
    (x : Bytes) (l : Lru) (i : ℕ)
    → IsLinked l
    → id_of l.lst x ≡ some i
    → 0 < empties l.hash.buckets
    → Returns (refresh i x l) (Kept l (spec_refresh x (keys l.lst)))
unfolding refresh
refresh-Kept x l i h here room =
    let gone = id_of-without l.lst x x h.apart ∙ rw (=ᵇ_refl x) refl in
    let m =
      add-Added x (record l { lst = without x l.lst }) h.valid
        (λ k other. h.linked k ∙ sym (id_of-without l.lst x k h.apart ∙ rw other refl))
        (AreApart-without l.lst x h.apart) (below-without l.lst x l.fresh h.below) gone room in
    (
      m.0,
      rw (erase_at-without l.lst x i h.apart here) m.1,
      record {
        linked = m.2.linked;
        order = m.2.order ∙ ap (λ ks. ks ++ x ∷ []) (keys-without l.lst x);
        limit = m.2.limit;
        room = m.2.room;
      },
    )

-- `access` of a key that is there makes it the most recently used one, and of another key does nothing.
pub access-Kept :
    (x : Bytes) (l : Lru)
    → IsLinked l
    → 0 < empties l.hash.buckets
    → Returns (access x l) (Kept l (spec_access x (keys l.lst)))
unfolding access
access-Kept x l h room =
    let reads = get-lookup 0 l.hash x h.valid room ∙ ap ok (h.linked x) in
    elim (Option-cases (id_of l.lst x)) [
      | inl e ↦ (
        l,
        rw (reads, e) refl,
        record {
          linked = h;
          order = ground (arith, member-id_of l.lst x, e);
          limit = refl;
          room = omega arith;
        },
      )
      | inr (i, e) ↦
          let m = refresh-Kept x l i h e room in
          (
            m.0,
            rw (reads, e) m.1,
            record {
              linked = m.2.linked;
              order = m.2.order ∙ ground (arith, member-id_of l.lst x, e);
              limit = m.2.limit;
              room = m.2.room;
            },
          )
    ]

-- `del` takes the key from the order.
pub del-Kept :
    (x : Bytes) (l : Lru)
    → IsLinked l
    → 0 < empties l.hash.buckets
    → Returns (del x l) (Kept l (drop_key x (keys l.lst)))
unfolding del
del-Kept x l h room =
    let reads = get-lookup 0 l.hash x h.valid room ∙ ap ok (h.linked x) in
    elim (Option-cases (id_of l.lst x)) [
      | inl e ↦ (
        l,
        rw (reads, e) refl,
        record {
          linked = h;
          order = sym (drop_key_absent x (keys l.lst) (ground (arith, member-id_of l.lst x, e)));
          limit = refl;
          room = omega arith;
        },
      )
      | inr (i, e) ↦
          let r = erase-Erased 0 l.hash x h.valid room in
          (
            record l { lst = without x l.lst; hash = r.0.0 },
            rw (reads, e, erase_at-without l.lst x i h.apart e, r.1) refl,
            record {
              linked = record {
                valid = r.2.valid;
                linked = λ k.
                    r.2.maps k
                    ∙ ap (λ o. if k =ᵇ x then none else o) (h.linked k)
                    ∙ sym (id_of-without l.lst x k h.apart);
                apart = AreApart-without l.lst x h.apart;
                below = below-without l.lst x l.fresh h.below;
              };
              order = keys-without l.lst x;
              limit = refl;
              room = omega (arith, r.2.room);
            },
          )
    ]

-- The empty list of a new object, and after `clear`.
pub new-IsLinked : (maxsz : ℕ) → IsLinked (new maxsz)
unfolding new id_of
new-IsLinked maxsz = record {
  valid = new-IsValid 0;
  linked = λ k. new-lookup 0 k;
  apart = tt;
  below = tt;
}

pub clear-IsLinked : (l : Lru) → IsLinked (clear l)
unfolding clear id_of
clear-IsLinked l = record {
  valid = new-IsValid 0;
  linked = λ k. new-lookup 0 k;
  apart = tt;
  below = tt;
}
