-- ===== src/Store/KvStore/Snapshot/Reload.antt =====
-- kvstore/KVStore: a store that reads what another one has written.
use kvjet.Prelude.{
  ℕ, ◌%◌, ◌<◌, true, List, [], none, Bytes, ◌≡◌, refl, sym, ◌∙◌, ap, arith, All, length, subst,
}
use kvjet.Prelude.Outcome.{◌>>=◌, Returns}
use native.Mathlib.Nat.{mod-lt}
use kvjet.Resp.Value.{Value}
use kvjet.Store.HashTable.{gethash}
use kvjet.Store.HashTable.Placed.{lookup}
use kvjet.Store.HashTable.Snapshot.Untouched.{IsUsed, lookup-kept, reload-IsValid}
use kvjet.Store.Lru.{clear}
use kvjet.Store.Lru.Order.{keys}
use kvjet.Store.Lru.Linked.{clear-IsLinked}
use kvjet.Store.KvStore.{Shard, KvStore}
use kvjet.Store.KvStore.View.{IsSound, IsStore, shard_at, view}
use kvjet.Store.KvStore.Snapshot.{write_to_file_fork, read_from_file}
use kvjet.Store.KvStore.Snapshot.Loops.{
  IsWritable, IsRead, at, loaded, write_shards-Holds, read_shards-IsRead,
}

module _ (dflt : Value) where
  -- A shard that can be written, and whose table has no tombstone.
  pub record IsSettled (shard : Shard Value) : Type 0 where
    pub writable : IsWritable shard.table
    pub used : All IsUsed shard.table.buckets

  -- What `readfromfile` leaves: the values of the store `s`, and no recent use.
  pub record Reloads (s v : KvStore Value) : Type 0 where
    pub store : IsStore dflt v
    pub count : v.shard_count ≡ s.shard_count
    pub maps : (k : Bytes) → view dflt v k ≡ view dflt s k
    pub forgotten : (i : ℕ) → i < v.shard_count → keys (shard_at dflt v i).lru.lst ≡ []

  IsRead-Reloads :
      (s u : KvStore Value) (shards : List (Shard Value))
      → IsStore dflt s
      → IsStore dflt u
      → u.shard_count ≡ s.shard_count
      → ((i : ℕ) → i < s.shard_count → IsSettled (shard_at dflt s i))
      → IsRead dflt s.shards u.shards (length u.shards) shards
      → Reloads s (record u { shards = shards })
  unfolding clear
  IsRead-Reloads s u shards store target same settled r =
      let n = target.width in
      let done : (i : ℕ)
          → i < u.shard_count
          → at dflt shards i ≡ loaded dflt (at dflt s.shards i) (at dflt u.shards i) =
        λ i h. r.done i (omega (arith, h, n)) in
      record {
        store = record {
          width = r.width ∙ target.width;
          sharded = target.sharded;
          sound = λ i h.
              let below : i < s.shard_count = omega (arith, h, same) in
              subst (IsSound dflt) (sym (done i h)) (record {
                valid = reload-IsValid dflt _ (store.sound i below).valid (settled i below).used;
                links = clear-IsLinked (at dflt u.shards i).lru;
              });
        };
        count = same;
        maps = λ k.
            ap (λ x. lookup x.table.buckets k) (done _ (mod-lt (gethash k) target.sharded))
            ∙ lookup-kept dflt _ k
            ∙ ap (λ c. lookup (shard_at dflt s (gethash k % c)).table.buckets k) same;
        forgotten = λ i h. ap (λ x. keys x.lru.lst) (done i h);
      }

  -- The two stores are valid and have the same number of shards; no table of the first has a
  -- tombstone, and each can be written. If all files can be opened, `writetofileFork` of the first store
  -- returns, and `readfromfile` in the second store then returns a valid store that has for every
  -- key the value of the first one, and no recent use.
  pub read_from_file-Reloads :
      (s u : KvStore Value)
      → IsStore dflt s
      → IsStore dflt u
      → u.shard_count ≡ s.shard_count
      → ((i : ℕ) → i < s.shard_count → IsSettled (shard_at dflt s i))
      → Returns
          (write_to_file_fork (λ _. true) s >>= λ dir. read_from_file dflt (λ _. true) dir u)
          (Reloads s)
  unfolding write_to_file_fork read_from_file
  read_from_file-Reloads s u store target same settled =
      let (dir, written, holds) =
        write_shards-Holds dflt s.shards s.shard_count 0 (λ _. none) (omega (arith, store.width))
          (λ j h. (settled j (omega (arith, h, store.width))).writable)
          (λ j h. absurd (omega (arith, h))) in
      let (shards, read, all) =
        read_shards-IsRead dflt s.shards u.shards dir u.shard_count 0 u.shards
          (omega (arith, target.width))
          (λ j h. holds j (omega (arith, h, store.width, target.width, same)))
          (record { width = refl; done = λ j h. absurd (omega (arith, h)); left = λ j h. refl }) in
      (
        record u { shards = shards },
        rw (written, read) refl,
        IsRead-Reloads s u shards store target same settled all,
      )
