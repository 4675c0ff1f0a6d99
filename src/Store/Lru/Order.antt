-- ===== src/Store/Lru/Order.antt =====
-- kvstore/LRU: the operations on the list of keys, from the least to the most recently used.
use kvjet.Prelude.{
  is_some, ℕ, suc, Bool, true, false, List, [], ◌∷◌, ◌++◌, Option, none, some, Bytes, length, ltb,
  if◌then◌else◌, ◌=ᵇ◌, ◌≡◌, refl, ap, Bool-cases, arith, inl, inr,
}
use kvjet.Store.Lru.{Entry}
use kvjet.Store.Lru.Entries.{id_of, without}

abbrev pub keys : List Entry → List Bytes
keys [] = []
keys (e ∷ lst) = e.key ∷ keys lst

-- The specification, on the keys alone.
unfoldable pub member : Bytes → List Bytes → Bool
member k [] = false
member k (x ∷ ks) = let rest = member k ks in if k =ᵇ x then true else rest

unfoldable pub drop_key : Bytes → List Bytes → List Bytes
drop_key k [] = []
drop_key k (x ∷ ks) = let rest = drop_key k ks in if k =ᵇ x then ks else x ∷ rest

abbrev pub spec_refresh : Bytes → List Bytes → List Bytes
spec_refresh k ks = drop_key k ks ++ k ∷ []

abbrev pub spec_access : Bytes → List Bytes → List Bytes
spec_access k ks = if member k ks then spec_refresh k ks else ks

abbrev pub spec_trim : ℕ → List Bytes → Option Bytes × List Bytes
spec_trim maxsz [] = (none, [])
spec_trim maxsz (k ∷ ks) = if ltb maxsz (length (k ∷ ks)) then (some k, ks) else (none, k ∷ ks)

unfoldable pub spec_set : ℕ → Bytes → List Bytes → Option Bytes × List Bytes
spec_set maxsz k ks =
    if member k ks then (none, spec_refresh k ks) else spec_trim maxsz (ks ++ k ∷ [])

pub keys-append : (lst : List Entry) (e : Entry) → keys (lst ++ e ∷ []) ≡ keys lst ++ e.key ∷ []
keys-append [] e = refl
keys-append (x ∷ lst) e = ap (◌∷◌ x.key) (keys-append lst e)

pub keys-without : (lst : List Entry) (k : Bytes) → keys (without k lst) ≡ drop_key k (keys lst)
unfolding without drop_key
keys-without [] k = refl
keys-without (x ∷ lst) k = elim (Bool-cases (k =ᵇ x.key)) [
  | inl s ↦ rw s refl
  | inr s ↦ rw s (ap (◌∷◌ x.key) (keys-without lst k))
]

pub member-id_of : (lst : List Entry) (k : Bytes) → member k (keys lst) ≡ is_some (id_of lst k)
unfolding member id_of
member-id_of [] k = refl
member-id_of (x ∷ lst) k = elim (Bool-cases (k =ᵇ x.key)) [
  | inl s ↦ rw s refl
  | inr s ↦ rw s (member-id_of lst k)
]

pub length-keys : (lst : List Entry) → length (keys lst) ≡ length lst
length-keys [] = refl
length-keys (x ∷ lst) = ap suc (length-keys lst)

pub drop_key_absent : (k : Bytes) (ks : List Bytes) → member k ks ≡ false → drop_key k ks ≡ ks
unfolding member drop_key
drop_key_absent k [] h = refl
drop_key_absent k (x ∷ ks) h =
    let other : (k =ᵇ x) ≡ false = ground (arith, h) in
    rw other (ap (◌∷◌ x) (drop_key_absent k ks (ground (arith, h))))
