-- ===== src/Store/HashTable.antt =====
-- kvstore/HashTable: open addressing with linear probing and tombstones. The template parameter is
-- `V`, and `dflt` is its default-constructed value.
pub mod Slot
pub mod Probe
pub mod Placed
pub mod Write
pub mod Bury
pub mod Search
pub mod Vacancy
pub mod Map
pub mod Rehash
pub mod Update
pub mod Growth
pub mod Snapshot
use Prim.Native.Nat.{bit_xor}
use kvjet.Prelude.{
  ℕ, zero, suc, ◌+◌, ◌-◌, ◌*◌, ◌%◌, ◌^◌, Bool, true, false, List, [], ◌∷◌, Option, none, some,
  Bytes, length, replicate, ltb, ◌==◌, ◌=ᵇ◌, if◌then◌else◌,
}
use kvjet.Prelude.{set as write}
use kvjet.Prelude.Outcome.{Outcome, ok, raised, undefined, index, ◌>>=◌}

-- `stat`
pub data Stat : Type 0 where
  deleted empty occupied : Stat

abbrev pub is_occupied : Stat → Bool
is_occupied occupied = true
is_occupied _ = false

pub record Node {ℓ} (V : Type ℓ) : Type ℓ where
  pub key : Bytes
  pub value : V
  pub status : Stat

-- The class; `loadfactor` is the constant 0.75.
pub record HashTable {ℓ} (V : Type ℓ) : Type ℓ where
  pub buckets : List (Node V)
  pub bucketsz : ℕ
  pub sz : ℕ

-- `(uint32_t)c` of a signed `char`.
abbrev sign_extend : ℕ → ℕ
sign_extend c = if ltb c 128 then c else c + (2 ^ 32 - 256)

abbrev hash_from : ℕ → Bytes → ℕ
hash_from h [] = h
hash_from h (c ∷ key) = hash_from (bit_xor h (sign_extend c) * 16777619 % 2 ^ 32) key

unfoldable pub gethash : Bytes → ℕ
gethash key = hash_from 2654435761 key

-- `first_del` once the slot at `idx` has been seen.
abbrev pub mark : Stat → ℕ → Option ℕ → Option ℕ
mark deleted idx none = some idx
mark _ idx first_del = first_del

abbrev pub first_or : Option ℕ → ℕ → ℕ
first_or none idx = idx
first_or (some i) idx = i

module _ {ℓ} {V : Type ℓ} where
  -- The loop of `find`, which ends when `idx` is back at `raw`. Each of the `rounds` looks at a slot.
  unfoldable pub probe : ℕ → List (Node V) → ℕ → Bytes → ℕ → ℕ → Option ℕ → Outcome ℕ
  probe zero bs n key raw idx first_del = undefined
  probe (suc rounds) bs n key raw idx first_del =
      let rest = λ (node : Node V).
        let next = (idx + 1) % n in
        let go_on = probe rounds bs n key raw next (mark node.status idx first_del) in
        if next == raw then raised "Empty position not found" else go_on in
      index bs idx >>= λ node. elim node.status [
        | empty ↦ ok (first_or first_del idx)
        | deleted ↦ rest node
        | occupied ↦ if node.key =ᵇ key then ok idx else rest node
      ]

  -- The index of the slot. `n` rounds bring `idx` back to `raw`; without a bucket `% 0` is undefined.
  unfoldable pub find : HashTable V → Bytes → Outcome ℕ
  unfolding probe
  find t key =
      let raw = gethash key % t.bucketsz in
      if t.bucketsz == 0 then undefined else probe t.bucketsz t.buckets t.bucketsz key raw raw none

  unfoldable pub get : HashTable V → Bytes → Outcome (Option V)
  get t key = find t key >>= λ i.
      index t.buckets i >>= λ p. ok (if is_occupied p.status then some p.value else none)

  unfoldable pub checkexist : HashTable V → Bytes → Outcome Bool
  checkexist t key = find t key >>= λ i. index t.buckets i >>= λ p. ok (is_occupied p.status)

  unfoldable pub erase : HashTable V → Bytes → Outcome (HashTable V × Bool)
  erase t key = find t key >>= λ i. index t.buckets i >>= λ p. ok (
      if is_occupied p.status
      then (
        record t { sz = t.sz - 1; buckets = write t.buckets i (record p { status = deleted }) },
        true,
      )
      else (t, false))

  -- `*find(key) = Node(key, value)`
  unfoldable pub place : Bytes → V → HashTable V → Outcome (HashTable V)
  place key value t = find t key >>= λ i. index t.buckets i >>= λ _. ok (record t {
    buckets = write t.buckets i (record { key = key; value = value; status = occupied });
  })

  -- The loop of `rehash` over the old buckets.
  unfoldable pub reinsert : List (Node V) → HashTable V → Outcome (HashTable V)
  unfolding place
  reinsert [] t = ok t
  reinsert (node ∷ old) t =
      (if is_occupied node.status then place node.key node.value t else ok t) >>= reinsert old

  -- What `forEach` hands to its callback.
  unfoldable pub for_each : List (Node V) → List (Bytes × V)
  for_each [] = []
  for_each (node ∷ bs) =
      let rest = for_each bs in
      if is_occupied node.status then (node.key, node.value) ∷ rest else rest

module _ {ℓ} {V : Type ℓ} (dflt : V) where
  abbrev pub empty_node : Node V
  empty_node = record { key = []; value = dflt; status = empty }

  unfoldable pub new : HashTable V
  new = record { buckets = replicate 16 empty_node; bucketsz = 16; sz = 0 }

  unfoldable pub rehash : HashTable V → Outcome (HashTable V)
  rehash t = reinsert t.buckets (record {
    buckets = replicate (2 * t.bucketsz) empty_node;
    bucketsz = 2 * t.bucketsz;
    sz = t.sz;
  })

  -- A new key is written into the slot that `find` gave. `1.0 * sz / bucketsz > 0.75`.
  unfoldable pub set : HashTable V → Bytes → V → Outcome (HashTable V)
  set t key value = find t key >>= λ i. index t.buckets i >>= λ p.
      let update = λ (node : Node V). write t.buckets i node in
      if is_occupied p.status
      then ok (record t { buckets = update (record p { value = value }) })
      else (let u : HashTable V = record t {
        buckets = update (record { key = key; value = value; status = occupied });
        sz = t.sz + 1;
      } in
          if ltb (3 * t.bucketsz) (4 * u.sz) then rehash u else ok u)
