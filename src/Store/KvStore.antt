-- ===== src/Store/KvStore.antt =====
-- kvstore/KVStore: the keys are spread over shards, each with a table and a list of recent uses. The
-- lock of a shard is held during a call, so that a call is one step.
pub mod View
pub mod Calls
pub mod Snapshot
use kvjet.Prelude.{
  ℕ, zero, suc, ◌+◌, ◌%◌, Bool, true, false, List, [], ◌∷◌, Option, none, some, Bytes, replicate,
  ◌==◌, if◌then◌else◌,
}
use kvjet.Prelude.{set as write}
use kvjet.Prelude.Outcome.{Outcome, ok, undefined, ◌>>=◌, index}
use kvjet.Store.HashTable.{HashTable, gethash}
use kvjet.Store.HashTable.{
  get as table_get, set as table_set, new as table_new, erase as table_erase,
  checkexist as table_checkexist,
}
use kvjet.Store.Lru.{Lru, access}
use kvjet.Store.Lru.{set as lru_set, new as lru_new, del as lru_del}

pub record Shard {ℓ} (V : Type ℓ) : Type ℓ where
  pub table : HashTable V
  pub lru : Lru

pub record KvStore {ℓ} (V : Type ℓ) : Type ℓ where
  pub shard_count : ℕ
  pub shards : List (Shard V)

module _ {ℓ} {V : Type ℓ} where
  -- `getShard`, and what a call does with the shard. `% 0` is undefined.
  unfoldable pub with_shard {κ} :
      {B : Type κ} → Bytes → (Shard V → Outcome (B × Shard V)) → KvStore V → Outcome (B × KvStore V)
  with_shard key f s =
      let i = gethash key % s.shard_count in
      if s.shard_count == 0
      then undefined
      else index s.shards i >>= λ shard.
          f shard >>= λ r. ok (r.0, record s { shards = write s.shards i r.1 })

  -- `get`. What it returns is a pointer to the value, or a null pointer.
  abbrev pub get_in : Bytes → Shard V → Outcome (Option V × Shard V)
  get_in key shard = table_get shard.table key >>= λ result. elim result [
    | none ↦ ok (none, shard)
    | some v ↦ access key shard.lru >>= λ l. ok (some v, record shard { lru = l })
  ]

  unfoldable pub get : Bytes → KvStore V → Outcome (Option V × KvStore V)
  get key s = with_shard key (get_in key) s

  -- `getValue`: the encoded value, or nothing.
  unfoldable pub get_value : (V → Bytes) → Bytes → KvStore V → Outcome (Bytes × KvStore V)
  unfolding get
  get_value encode key s =
      get key s >>= λ r. elim r.0 [ none ↦ ok ([], r.1) | some v ↦ ok (encode v, r.1) ]

  abbrev pub del_in : Bytes → Shard V → Outcome (Bool × Shard V)
  del_in key shard = table_erase shard.table key >>= λ r.
      let shard₁ : Shard V = record shard { table = r.0 } in
      if r.1
      then (lru_del key shard.lru >>= λ l. ok (true, record shard₁ { lru = l }))
      else ok (false, shard₁)

  unfoldable pub del : Bytes → KvStore V → Outcome (Bool × KvStore V)
  del key s = with_shard key (del_in key) s

  unfoldable pub checkexist : Bytes → KvStore V → Outcome (Bool × KvStore V)
  checkexist key s =
      with_shard key (λ shard. table_checkexist shard.table key >>= λ b. ok (b, shard)) s

module _ {ℓ} {V : Type ℓ} (dflt : V) where
  -- `Config::LRU_MAX_SIZE`
  abbrev pub new_shard : Shard V
  new_shard = record { table = table_new dflt; lru = lru_new 100000 }

  unfoldable pub new : ℕ → KvStore V
  new shard_count = record { shard_count = shard_count; shards = replicate shard_count new_shard }

  -- `set` returns the key that the list of recent uses has evicted.
  abbrev pub set_in : Bytes → V → Shard V → Outcome (Option Bytes × Shard V)
  set_in key value shard = table_set dflt shard.table key value >>= λ t.
      lru_set key shard.lru >>= λ r. ok (r.0, record { table = t; lru = r.1 })

  unfoldable pub set : Bytes → V → KvStore V → Outcome (Option Bytes × KvStore V)
  set key value s = with_shard key (set_in key value) s
