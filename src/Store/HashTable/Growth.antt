-- ===== src/Store/HashTable/Growth.antt =====
-- kvstore/HashTable: a table that is only written to never runs out of slots, and one whose slots are
-- used up by tombstones does.
use native.Mathlib.Nat.{mod-lt}
use kvjet.Prelude.{
  Bool-contra, ℕ, zero, suc, ◌<◌, false, List, [], ◌∷◌, Option, none, some, ◌≡◌, refl, sym, ap, ◌∙◌,
  Bytes, length, ◌=ᵇ◌, arith, if◌then◌else◌, replicate,
}
use native.Mathlib.Nat.{mod-lt}
use kvjet.Prelude.Outcome.{Outcome, ok, raised, ◌>>=◌, Returns}
use kvjet.Store.HashTable.{Node, empty_node, HashTable, find, get, set, erase, checkexist, new}
use kvjet.Store.HashTable.Slot.{is_empty, at_slot}
use kvjet.Store.HashTable.Probe.{Ending, hit, free, full}
use kvjet.Store.HashTable.Placed.{lookup, home, lookup_absent, lookup_present}
use kvjet.Store.HashTable.Search.{IsValid, find-Ending}
use kvjet.Store.HashTable.Vacancy.{empties, empties-replicate}
use kvjet.Store.HashTable.Rehash.{replicate-IsPlaced, replicate-lacks}
use kvjet.Store.HashTable.Map.{get-lookup}
use kvjet.Store.HashTable.Update.{IsLoaded, set-Stored}

module _ {ℓ} {V : Type ℓ} where
  -- The value that the last of the calls for the key gave it.
  unfoldable pub last_value : List (Bytes × V) → Bytes → Option V → Option V
  last_value [] k o = o
  last_value ((key, value) ∷ kvs) k o = last_value kvs k (if k =ᵇ key then some value else o)

-- What a `get` on the table answers.
abbrev pub Answers {ℓ} : {V : Type ℓ} → Bytes → Option V → HashTable V → Type ℓ
Answers key o t = get t key ≡ ok o

module _ {ℓ} {V : Type ℓ} (dflt : V) where
  -- Calls of `set`, one behind the other.
  unfoldable pub set_all : List (Bytes × V) → HashTable V → Outcome (HashTable V)
  set_all [] t = ok t
  set_all ((key, value) ∷ kvs) t = set dflt t key value >>= set_all kvs

  pub record Holds (expected : Bytes → Option V) (t : HashTable V) : Type ℓ where
    pub valid : IsValid dflt t
    pub loaded : IsLoaded t
    pub maps : (k : Bytes) → lookup t.buckets k ≡ expected k

  room_left : (t : HashTable V) → IsValid dflt t → IsLoaded t → 0 < empties t.buckets
  room_left t valid h = omega (arith, h.counted, h.load, valid.width, valid.placed.roomy)

  set_all-Holds :
      (kvs : List (Bytes × V)) (t : HashTable V) (expected : Bytes → Option V)
      → Holds expected t
      → Returns (set_all kvs t) (Holds (λ k. last_value kvs k (expected k)))
  unfolding set_all last_value
  set_all-Holds [] t expected h = (t, refl, h)
  set_all-Holds ((key, value) ∷ kvs) t expected h =
      let m = set-Stored dflt t key value h.valid (room_left t h.valid h.loaded) in
      let rest =
        set_all-Holds kvs m.0 (λ k. if k =ᵇ key then some value else expected k)
          (record {
            valid = m.2.valid;
            loaded = m.2.loaded h.loaded;
            maps = λ k. m.2.maps k ∙ ap (λ o. if k =ᵇ key then some value else o) (h.maps k);
          }) in
      (rest.0, rw m.1 rest.1, rest.2)

  pub new-IsValid : IsValid dflt (new dflt)
  unfolding new
  new-IsValid = record { width = refl; placed = replicate-IsPlaced dflt 16 (omega arith) }

  pub new-lookup : (k : Bytes) → lookup (new dflt).buckets k ≡ none
  unfolding new
  new-lookup k =
      lookup_absent dflt (replicate 16 (empty_node dflt)) k λ i. replicate-lacks dflt 16 i k

  pub new_room : empties (new dflt).buckets ≡ 16
  unfolding new
  new_room = empties-replicate dflt 16

  new-Holds : Holds (λ k. none) (new dflt)
  unfolding new
  new-Holds = record {
    valid = new-IsValid;
    loaded = record { counted = omega (arith, empties-replicate dflt 16); load = omega arith };
    maps = new-lookup;
  }

  -- Any sequence of calls of `set` on a new table returns, and a `get` then answers for every key the
  -- value that the last call for this key has given.
  pub set_all-Answers :
      (kvs : List (Bytes × V)) (key : Bytes)
      → Returns (set_all kvs (new dflt)) (Answers key (last_value kvs key none))
  set_all-Answers kvs key =
      let m = set_all-Holds kvs (new dflt) (λ k. none) new-Holds in
      let t = m.0 in
      (
        t,
        m.1,
        get-lookup dflt t key m.2.valid (room_left t m.2.valid m.2.loaded) ∙ ap ok (m.2.maps key),
      )

  all_taken :
      (bs : List (Node V)) (i : ℕ)
      → empties bs ≡ 0
      → i < length bs
      → is_empty (at_slot dflt bs i).status ≡ false
  unfolding empties
  all_taken [] i h g = absurd (omega arith)
  all_taken (x ∷ bs) zero h g = ground (arith, h)
  all_taken (x ∷ bs) (suc i) h g = all_taken bs i (ground (arith, h)) (omega arith)

  find_throws :
      (t : HashTable V) (key : Bytes)
      → IsValid dflt t
      → empties t.buckets ≡ 0
      → lookup t.buckets key ≡ none
      → find t key ≡ raised "Empty position not found"
  find_throws t key valid none_left lacks = go (find-Ending dflt t key valid)
    where
      go :
          Ending dflt t.buckets key (home t.buckets key) (find t key)
          → find t key ≡ raised "Empty position not found"
      go (hit e) =
          absurd
            (some_none _ (sym (lookup_present dflt t.buckets _ key valid.placed e.found) ∙ lacks))
        where
          some_none : (v : V) → some v ≡ none → ⊥
          some_none v h = cc
      go (free e) =
          absurd
            (Bool-contra _ e.hole (all_taken t.buckets _ none_left (mod-lt _ valid.placed.roomy)))
      go (full e) = e.answer

  -- In a valid table without an empty slot every operation on a key that it does not hold throws.
  pub get_throws :
      (t : HashTable V) (key : Bytes) (value : V)
      → IsValid dflt t
      → empties t.buckets ≡ 0
      → lookup t.buckets key ≡ none
      → (get t key ≡ raised "Empty position not found")
        × (set dflt t key value ≡ raised "Empty position not found")
        × (erase t key ≡ raised "Empty position not found")
        × (checkexist t key ≡ raised "Empty position not found")
  unfolding get set erase checkexist
  get_throws t key value valid none_left lacks =
      let e = find_throws t key valid none_left lacks in
      (rw e refl, rw e refl, rw e refl, rw e refl)
