-- ===== src/Store/Lru.antt =====
-- kvstore/LRU: the keys in the order of their last use, with a hash table of iterators into the list.
-- An iterator is the identity of a list node: a node is erased by its identity, which no other node
-- ever gets.
pub mod Entries
pub mod Order
pub mod Linked
pub mod Evict
use kvjet.Prelude.{
  ℕ, zero, suc, ◌+◌, Bool, true, false, List, [], ◌∷◌, ◌++◌, Option, none, some, Bytes, length, ltb,
  ◌==◌, if◌then◌else◌,
}
use kvjet.Prelude.Outcome.{Outcome, ok, undefined, ◌>>=◌}
use kvjet.Store.HashTable.{HashTable, get, erase}
use kvjet.Store.HashTable.{set as hash_set, new as hash_new}

-- A node of the list.
pub record Entry : Type 0 where
  pub id : ℕ
  pub key : Bytes

-- A singular iterator is 0; `fresh` is the identity of the next node.
pub record Lru : Type 0 where
  pub maxsz : ℕ
  pub lst : List Entry
  pub hash : HashTable ℕ
  pub fresh : ℕ

unfoldable pub new : ℕ → Lru
new maxsz = record { maxsz = maxsz; lst = []; hash = hash_new 0; fresh = 1 }

-- `lst.erase(it)`: the iterator must point into the list.
unfoldable pub erase_at : ℕ → List Entry → Outcome (List Entry)
erase_at it [] = undefined
erase_at it (e ∷ lst) =
    let rest = erase_at it lst in if e.id == it then ok lst else rest >>= λ l. ok (e ∷ l)

-- `lst.push_back(x); hash.set(x, prev(lst.end()))`
unfoldable pub add : Bytes → Lru → Outcome Lru
add x l = hash_set 0 l.hash x l.fresh >>= λ h. ok (record l {
  lst = l.lst ++ (record { id = l.fresh; key = x }) ∷ [];
  hash = h;
  fresh = l.fresh + 1;
})

-- The key moves to the end.
unfoldable pub refresh : ℕ → Bytes → Lru → Outcome Lru
unfolding add
refresh it x l = erase_at it l.lst >>= λ rest. add x (record l { lst = rest })

unfoldable pub access : Bytes → Lru → Outcome Lru
unfolding refresh
access x l = get l.hash x >>= λ found. elim found [ none ↦ ok l | some it ↦ refresh it x l ]

-- The end of `set` for a new key: the front is evicted when there are too many.
unfoldable pub evict : Lru → Outcome (Option Bytes × Lru)
evict l =
    if ltb l.maxsz (length l.lst)
    then elim l.lst [
      | [] ↦ undefined
      | e ∷ rest ↦ erase l.hash e.key >>= λ r. ok (some e.key, record l { lst = rest; hash = r.0 })
    ]
    else ok (none, l)

unfoldable pub set : Bytes → Lru → Outcome (Option Bytes × Lru)
unfolding refresh evict
set x l = get l.hash x >>= λ found. elim found [
  | some it ↦ refresh it x l >>= λ m. ok (none, m)
  | none ↦ add x l >>= evict
]

unfoldable pub del : Bytes → Lru → Outcome Lru
del x l = get l.hash x >>= λ found. elim found [
  | none ↦ ok l
  | some it ↦
      erase_at it l.lst >>= λ rest. erase l.hash x >>= λ r. ok (record l { lst = rest; hash = r.0 })
]

unfoldable pub clear : Lru → Lru
clear l = record l { lst = []; hash = hash_new 0 }
