-- ===== src/Store/KvStore/Snapshot/Loops.antt =====
-- kvstore/KVStore: the loops of `writetofile` and `readfromfile` over the shards.
use kvjet.Prelude.{
  ℕ, zero, suc, ◌+◌, ◌<◌, ◌≤◌, ◌^◌, true, List, some, Bytes, ◌≡◌, refl, sym, ◌∙◌, ap, ◌==◌, arith,
  All, length, inl, inr, Bool-cases, ==_iff, ==_refl, subst, get_or, length-set, get_or-set_self,
  get_or-set_ne,
}
use kvjet.Prelude.{set as write}
use kvjet.Prelude.Outcome.{ok, index-get_or, Returns}
use kvjet.Resp.Value.{Value}
use kvjet.Store.HashTable.{HashTable}
use kvjet.Store.HashTable.Snapshot as Table
use kvjet.Store.HashTable.Snapshot.Reload.{FitsSlot, in_use, reload, read_from_file-write_to_file}
use kvjet.Store.Lru.{clear}
use kvjet.Store.KvStore.{Shard, new_shard}
use kvjet.Store.KvStore.Snapshot.{Dir, put, write_shards, read_shard, read_shards}

-- A table that can be written: it has fewer than 2 ^ 32 buckets, `sz` counts the slots in use, and
-- their entries fit.
pub record IsWritable (t : HashTable Value) : Type 0 where
  pub width : length t.buckets ≡ t.bucketsz
  pub small : t.bucketsz < 2 ^ 32
  pub counted : t.sz ≡ in_use t.buckets
  pub fits : All FitsSlot t.buckets

module _ (dflt : Value) where
  abbrev pub at : List (Shard Value) → ℕ → Shard Value
  at shards i = get_or shards i (new_shard dflt)

  -- The directory has files from which the first `n` tables are read.
  abbrev pub Holds : List (Shard Value) → ℕ → Dir → Type 0
  Holds shards n dir =
      (j : ℕ)
      → j < n
      → (file : Bytes) × (dir j ≡ some file)
        × (Table.read_from_file dflt (some file) ≡ ok (reload dflt (at shards j).table))

  put-Holds :
      (shards : List (Shard Value)) (i : ℕ) (file : Bytes) (dir : Dir)
      → Holds shards i dir
      → Table.read_from_file dflt (some file) ≡ ok (reload dflt (at shards i).table)
      → Holds shards (i + 1) (put i file dir)
  put-Holds shards i file dir held here j h = elim (Bool-cases (j == i)) [
    | inl e ↦
        let same = (==_iff j i).0 e in
        (file, rw e refl, here ∙ ap (λ x. ok (reload dflt (at shards x).table)) (sym same))
    | inr e ↦ let (old, there, read) = held j (ground (arith, e, h)) in (old, rw e there, read)
  ]

  pub write_shards-Holds :
      (shards : List (Shard Value)) (rounds i : ℕ) (dir : Dir)
      → rounds + i ≡ length shards
      → ((j : ℕ) → j < length shards → IsWritable (at shards j).table)
      → Holds shards i dir
      → Returns (write_shards (λ _. true) rounds i shards dir) (Holds shards (length shards))
  unfolding write_shards
  write_shards-Holds shards zero i dir e ready held =
      let end : i ≡ length shards = omega arith in
      (dir, refl, subst (λ n. Holds shards n dir) end held)
  write_shards-Holds shards (suc rounds) i dir e ready held =
      let inside : i < length shards = omega arith in
      let w = ready i inside in
      let (file, written, read) =
        read_from_file-write_to_file dflt (at shards i).table w.width w.small w.counted w.fits in
      let (dir', run, all) =
        write_shards-Holds shards rounds (i + 1) (put i file dir) (omega arith) ready
          (put-Holds shards i file dir held read) in
      (dir', rw (index-get_or shards i (new_shard dflt) inside, written) run, all)

  -- What reading makes of a shard.
  abbrev pub loaded : Shard Value → Shard Value → Shard Value
  loaded shard old = record { table = reload dflt shard.table; lru = clear old.lru }

  -- The first `n` shards have been read, the others are the old ones.
  pub record IsRead (shards old : List (Shard Value)) (n : ℕ) (new : List (Shard Value))
      : Type 0 where
    pub width : length new ≡ length old
    pub done : (j : ℕ) → j < n → at new j ≡ loaded (at shards j) (at old j)
    pub left : (j : ℕ) → n ≤ j → at new j ≡ at old j

  write-IsRead :
      (shards old new : List (Shard Value)) (i : ℕ)
      → i < length old
      → IsRead shards old i new
      → IsRead shards old (i + 1) (write new i (loaded (at shards i) (at new i)))
  write-IsRead shards old new i inside r = record {
    width = length-set new i _ ∙ r.width;
    done = λ j h. elim (Bool-cases (j == i)) [
      | inl e ↦
          let here : at (write new i (loaded (at shards i) (at new i))) i
              ≡ loaded (at shards i) (at old i) =
            get_or-set_self new i _ (new_shard dflt) (omega (arith, inside, r.width))
            ∙ ap (loaded (at shards i)) (r.left i (omega arith)) in
          subst
            (λ x.
              at (write new i (loaded (at shards i) (at new i))) x
              ≡ loaded (at shards x) (at old x))
            (sym ((==_iff j i).0 e)) here
      | inr e ↦
          get_or-set_ne new i j _ (new_shard dflt) (λ x. ground (arith, x, e, ==_refl j))
          ∙ r.done j (ground (arith, e, h))
    ];
    left = λ j h.
        get_or-set_ne new i j _ (new_shard dflt) (λ x. omega (arith, x, h))
        ∙ r.left j (omega arith);
  }

  pub read_shards-IsRead :
      (shards old : List (Shard Value)) (dir : Dir) (rounds i : ℕ) (new : List (Shard Value))
      → rounds + i ≡ length old
      → Holds shards (length old) dir
      → IsRead shards old i new
      → Returns (read_shards dflt (λ _. true) dir rounds i new) (IsRead shards old (length old))
  unfolding read_shards read_shard
  read_shards-IsRead shards old dir zero i new e held r =
      let end : i ≡ length old = omega arith in
      (new, refl, subst (λ n. IsRead shards old n new) end r)
  read_shards-IsRead shards old dir (suc rounds) i new e held r =
      let inside : i < length old = omega arith in
      let (file, there, read) = held i inside in
      let (end, run, all) =
        read_shards-IsRead shards old dir rounds (i + 1) _ (omega arith) held
          (write-IsRead shards old new i inside r) in
      (end, rw (there, index-get_or new i (new_shard dflt) (omega (arith, r.width)), read) run, all)
