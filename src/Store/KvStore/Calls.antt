-- ===== src/Store/KvStore/Calls.antt =====
-- kvstore/KVStore: the calls as operations on one map, whatever the shards.
use native.Mathlib.Nat.{mod-lt}
use kvjet.Prelude.{
  is_some, ℕ, zero, suc, ◌%◌, ◌<◌, true, false, none, some, Bytes, replicate, if◌then◌else◌, ◌=ᵇ◌,
  ◌≡◌, refl, sym, ◌∙◌, Bool-cases, arith, subst, inl, inr, get_or, Option-cases, length-replicate,
}
use kvjet.Prelude.Outcome.{Returns}
use kvjet.Store.HashTable.{gethash}
use kvjet.Store.HashTable.Placed.{lookup}
use kvjet.Store.HashTable.Map.{get-lookup}
use kvjet.Store.HashTable.Update.{set-Stored, erase-Erased}
use kvjet.Store.HashTable.Growth.{new-IsValid}
use kvjet.Store.Lru.Linked.{access-Kept, del-Kept, new-IsLinked}
use kvjet.Store.Lru.Evict.{set-Sets}
use kvjet.Store.KvStore.{Shard, KvStore, get_in, del_in, set_in, get, del, set, new, new_shard}
use kvjet.Store.Lru.Order.{keys, spec_set}
use kvjet.Store.KvStore.View.{
  IsSound, HasRoom, shard_at, view, IsStore, HasRoomFor, OnShard, OnStore, with_shard-OnStore,
}

module _ {ℓ} {V : Type ℓ} (dflt : V) where
  home-IsSound :
      (key : Bytes) (s : KvStore V)
      → IsStore dflt s
      → IsSound dflt (shard_at dflt s (gethash key % s.shard_count))
  home-IsSound key s store = store.sound _ (mod-lt (gethash key) store.sharded)

  set_in-OnShard :
      (key : Bytes) (value : V) (shard : Shard V)
      → IsSound dflt shard
      → HasRoom dflt shard
      → Returns (set_in dflt key value shard) (
          OnShard dflt
            (λ evicted. evicted ≡ (spec_set shard.lru.maxsz key (keys shard.lru.lst)).0)
            (λ k o. if k =ᵇ key then some value else o)
            shard)
  set_in-OnShard key value shard sound room =
      let t = set-Stored dflt shard.table key value sound.valid room.in_table in
      let l = set-Sets key shard.lru sound.links room.in_links in
      (
        (l.0.0, record { table = t.0; lru = l.0.1 }),
        rw (t.1, l.1) refl,
        record {
          sound = record { valid = t.2.valid; links = l.2.linked };
          answer = l.2.evicted;
          maps = t.2.maps;
        },
      )

  -- The tables of the store are valid and have empty slots left for the call.
  -- A `set` returns the key that its shard evicts from the recent uses. The store then has the new
  -- value for the key, and every other key, an evicted one too, keeps its value.
  pub set-OnStore :
      (key : Bytes) (value : V) (s : KvStore V)
      → IsStore dflt s
      → HasRoomFor dflt key s
      → Returns (set dflt key value s) (
          OnStore dflt
            (λ evicted.
              evicted
              ≡ (spec_set
                  (shard_at dflt s (gethash key % s.shard_count)).lru.maxsz
                  key
                  (keys (shard_at dflt s (gethash key % s.shard_count)).lru.lst)).0)
            (λ k o. if k =ᵇ key then some value else o)
            s)
  unfolding set
  set-OnStore key value s store room =
      with_shard-OnStore dflt _ _ key (set_in dflt key value) s store (λ k o other. rw other refl)
        (set_in-OnShard key value _ (home-IsSound key s store) room)

  get_in-OnShard :
      (key : Bytes) (shard : Shard V)
      → IsSound dflt shard
      → HasRoom dflt shard
      → Returns
          (get_in key shard)
          (OnShard dflt (λ answer. answer ≡ lookup shard.table.buckets key) (λ k o. o) shard)
  get_in-OnShard key shard sound room =
      let reads = get-lookup dflt shard.table key sound.valid room.in_table in
      elim (Option-cases (lookup shard.table.buckets key)) [
        | inl e ↦ (
          (none, shard),
          rw (reads, e) refl,
          record { sound = sound; answer = sym e; maps = λ k. refl },
        )
        | inr (v, e) ↦
            let l = access-Kept key shard.lru sound.links (omega (arith, room.in_links)) in
            (
              (some v, record shard { lru = l.0 }),
              rw (reads, e, l.1) refl,
              record {
                sound = record { valid = sound.valid; links = l.2.linked };
                answer = sym e;
                maps = λ k. refl;
              },
            )
      ]

  -- The tables of the store are valid and have empty slots left for the call.
  -- A `get` answers the value that the store has for the key, and changes no value.
  pub get-OnStore :
      (key : Bytes) (s : KvStore V)
      → IsStore dflt s
      → HasRoomFor dflt key s
      → Returns (get key s) (OnStore dflt (λ answer. answer ≡ view dflt s key) (λ k o. o) s)
  unfolding get
  get-OnStore key s store room =
      with_shard-OnStore dflt _ _ key (get_in key) s store (λ k o _. refl)
        (get_in-OnShard key _ (home-IsSound key s store) room)

  del_in-OnShard :
      (key : Bytes) (shard : Shard V)
      → IsSound dflt shard
      → HasRoom dflt shard
      → Returns (del_in key shard) (
          OnShard dflt
            (λ answer. answer ≡ is_some (lookup shard.table.buckets key))
            (λ k o. if k =ᵇ key then none else o)
            shard)
  del_in-OnShard key shard sound room =
      let t = erase-Erased dflt shard.table key sound.valid room.in_table in
      elim (Bool-cases t.0.1) [
        | inl e ↦
            let l = del-Kept key shard.lru sound.links (omega (arith, room.in_links)) in
            (
              (true, record { table = t.0.0; lru = l.0 }),
              rw (t.1, e, l.1) refl,
              record {
                sound = record { valid = t.2.valid; links = l.2.linked };
                answer = sym e ∙ t.2.found;
                maps = t.2.maps;
              },
            )
        | inr e ↦ (
          (false, record shard { table = t.0.0 }),
          rw (t.1, e) refl,
          record {
            sound = record { valid = t.2.valid; links = sound.links };
            answer = sym e ∙ t.2.found;
            maps = t.2.maps;
          },
        )
      ]

  -- The tables of the store are valid and have empty slots left for the call.
  -- A `del` says whether the store had the key, and takes it and no other from the store.
  pub del-OnStore :
      (key : Bytes) (s : KvStore V)
      → IsStore dflt s
      → HasRoomFor dflt key s
      → Returns (del key s) (
          OnStore dflt
            (λ answer. answer ≡ is_some (view dflt s key))
            (λ k o. if k =ᵇ key then none else o)
            s)
  unfolding del
  del-OnStore key s store room =
      with_shard-OnStore dflt _ _ key (del_in key) s store (λ k o other. rw other refl)
        (del_in-OnShard key _ (home-IsSound key s store) room)

  -- The store of the constructor.
  pub new-IsStore : (n : ℕ) → 0 < n → IsStore dflt (new dflt n)
  unfolding new
  new-IsStore n h = record {
    width = length-replicate n (new_shard dflt);
    sharded = h;
    sound = λ i _.
        subst (IsSound dflt) (sym (get_or-replicate n i))
          (record { valid = new-IsValid dflt; links = new-IsLinked 100000 });
  }
    where
      get_or-replicate :
          (n i : ℕ) → get_or (replicate n (new_shard dflt)) i (new_shard dflt) ≡ new_shard dflt
      get_or-replicate zero i = refl
      get_or-replicate (suc n) zero = refl
      get_or-replicate (suc n) (suc i) = get_or-replicate n i
