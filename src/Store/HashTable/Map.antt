-- ===== src/Store/HashTable/Map.antt =====
-- The operations of kvstore/HashTable as operations on a map.
use kvjet.Prelude.{ℕ, suc, ◌<◌, ◌≤◌, some, ◌≡◌, refl, ◌∙◌, Bytes, ◌=ᵇ◌, if◌then◌else◌, length-set}
use kvjet.Prelude.{set as write}
use kvjet.Prelude.Outcome.{ok, index-get_or, Returns}
use kvjet.Store.HashTable.{occupied, Node, empty_node, HashTable, get, place}
use kvjet.Store.HashTable.Placed.{lookup, Target}
use kvjet.Store.HashTable.Search.{IsValid}
use kvjet.Store.HashTable.Vacancy.{empties, empties-write, find-Located}
use kvjet.Store.HashTable.Write.{put-IsPlaced, put-lookup}

module _ {ℓ} {V : Type ℓ} (dflt : V) where
  -- In a valid table with an empty slot left `get` answers what the map has for the key.
  pub get-lookup :
      (t : HashTable V) (key : Bytes)
      → IsValid dflt t
      → 0 < empties t.buckets
      → get t key ≡ ok (lookup t.buckets key)
  unfolding get
  get-lookup t key valid room =
      let l = find-Located dflt t key valid room in
      rw (l.answer, index-get_or t.buckets l.at (empty_node dflt) l.inside, l.look) refl

  -- The entry that takes the slot.
  abbrev pub entry : Bytes → V → Node V
  entry key value = record { key = key; value = value; status = occupied }

  -- The table after a write to its slot: the map has the new value for the key.
  pub record Put (t : HashTable V) (sz : ℕ) (key : Bytes) (value : V) (u : HashTable V)
      : Type ℓ where
    pub valid : IsValid dflt u
    pub room : empties t.buckets ≤ suc (empties u.buckets)
    pub same_width : u.bucketsz ≡ t.bucketsz
    pub size : u.sz ≡ sz
    pub maps :
        (k : Bytes) → lookup u.buckets k ≡ (if k =ᵇ key then some value else lookup t.buckets k)

  pub put :
      (t : HashTable V) (node : Node V) (i sz : ℕ)
      → IsValid dflt t
      → Target dflt t.buckets node.key i
      → node.status ≡ occupied
      → Put t sz node.key node.value
          (record { buckets = write t.buckets i node; bucketsz = t.bucketsz; sz = sz })
  put t node i sz valid target taken = record {
    valid = record {
      width = length-set t.buckets i node ∙ valid.width;
      placed = put-IsPlaced dflt t.buckets i node valid.placed target taken;
    };
    room = empties-write dflt t.buckets i node;
    same_width = refl;
    size = refl;
    maps = put-lookup dflt t.buckets i node valid.placed target taken;
  }

  pub place-Put :
      (t : HashTable V) (key : Bytes) (value : V)
      → IsValid dflt t
      → 0 < empties t.buckets
      → Returns (place key value t) (Put t t.sz key value)
  unfolding place
  place-Put t key value valid room =
      let l = find-Located dflt t key valid room in
      (
        _,
        rw (l.answer, index-get_or t.buckets l.at (empty_node dflt) l.inside) refl,
        put t (entry key value) l.at t.sz valid l.target refl,
      )
