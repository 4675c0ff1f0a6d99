-- ===== src/Store/KvStore/Snapshot.antt =====
-- kvstore/KVStore: `writetofile`, `writetofileFork` and `readfromfile`. The directory gives for a
-- number the bytes of the file `shard_<number>.snap`, if there is one. Other files are left out.
pub mod Loops
pub mod Reload
use kvjet.Prelude.{ℕ, zero, suc, ◌+◌, Bool, List, Option, none, some, Bytes, ◌==◌, if◌then◌else◌}
use kvjet.Prelude.{set as write}
use kvjet.Prelude.Outcome.{Outcome, ok, ◌>>=◌, index}
use kvjet.Resp.Value.{Value}
use kvjet.Store.HashTable.Snapshot as Table
use kvjet.Store.Lru.{clear}
use kvjet.Store.KvStore.{Shard, KvStore}

abbrev pub Dir : Type 0
Dir = ℕ → Option Bytes

abbrev pub put : ℕ → Bytes → Dir → Dir
put i file dir j = if j == i then some file else dir j

-- The loop of `writetofile`, `rounds` shards from the shard `i` on. `opened` tells of each file
-- whether it can be opened.
unfoldable pub write_shards : (ℕ → Bool) → ℕ → ℕ → List (Shard Value) → Dir → Outcome Dir
write_shards opened zero i shards dir = ok dir
write_shards opened (suc rounds) i shards dir = index shards i >>= λ shard.
    Table.write_to_file (opened i) shard.table >>= λ file.
    write_shards opened rounds (i + 1) shards (put i file dir)

-- The directory is removed before it is written.
unfoldable pub write_to_file : (ℕ → Bool) → KvStore Value → Outcome Dir
unfolding write_shards
write_to_file opened s = write_shards opened s.shard_count 0 s.shards (λ _. none)

-- What the forked process does, without locks.
unfoldable pub write_to_file_fork : (ℕ → Bool) → KvStore Value → Outcome Dir
unfolding write_shards
write_to_file_fork opened s = write_shards opened s.shard_count 0 s.shards (λ _. none)

-- A shard without a file is left as it is. `dflt` is a default-constructed value.
unfoldable pub read_shard :
    Value → Bool → Option Bytes → ℕ → List (Shard Value) → Outcome (List (Shard Value))
read_shard dflt opened none i shards = ok shards
read_shard dflt opened (some file) i shards = index shards i >>= λ shard.
    Table.read_from_file dflt (if opened then some file else none) >>= λ t.
    ok (write shards i (record { table = t; lru = clear shard.lru }))

-- The loop of `readfromfile`, `rounds` shards from the shard `i` on.
unfoldable pub read_shards :
    Value → (ℕ → Bool) → Dir → ℕ → ℕ → List (Shard Value) → Outcome (List (Shard Value))
unfolding read_shard
read_shards dflt opened dir zero i shards = ok shards
read_shards dflt opened dir (suc rounds) i shards =
    read_shard dflt (opened i) (dir i) i shards >>= read_shards dflt opened dir rounds (i + 1)

unfoldable pub read_from_file : Value → (ℕ → Bool) → Dir → KvStore Value → Outcome (KvStore Value)
unfolding read_shards
read_from_file dflt opened dir s =
    read_shards dflt opened dir s.shard_count 0 s.shards >>= λ shards.
    ok (record s { shards = shards })
