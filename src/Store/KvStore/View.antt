-- ===== src/Store/KvStore/View.antt =====
-- kvstore/KVStore as one map from keys to values.
use native.Mathlib.Nat.{mod-lt}
use kvjet.Prelude.{
  ℕ, ◌%◌, ◌<◌, false, Option, Bytes, ◌==◌, ◌=ᵇ◌, ◌≡◌, refl, sym, ◌∙◌, ap, Bool-cases, arith, =ᵇ→eq,
  ==_iff, subst, inl, inr, Bool-contra, length, get_or, length-set, get_or-set_self, get_or-set_ne,
}
use kvjet.Prelude.{set as write}
use kvjet.Prelude.Outcome.{Outcome, index-get_or, Returns}
use kvjet.Store.HashTable.{gethash}
use kvjet.Store.HashTable.Placed.{lookup}
use kvjet.Store.HashTable.Search.{IsValid}
use kvjet.Store.HashTable.Vacancy.{empties}
use kvjet.Store.Lru.Linked.{IsLinked}
use kvjet.Store.KvStore.{Shard, KvStore, with_shard, new_shard}

module _ {ℓ} {V : Type ℓ} (dflt : V) where
  -- A shard whose tables are valid, and one whose tables have empty slots left for a call.
  pub record IsSound (shard : Shard V) : Type 0 where
    pub valid : IsValid dflt shard.table
    pub links : IsLinked shard.lru

  pub record HasRoom (shard : Shard V) : Type 0 where
    pub in_table : 0 < empties shard.table.buckets
    pub in_links : 1 < empties shard.lru.hash.buckets

  -- The shard `i`, and a new one out of range.
  abbrev pub shard_at : KvStore V → ℕ → Shard V
  shard_at s i = get_or s.shards i (new_shard dflt)

  -- The map that the store stands for.
  abbrev pub view : KvStore V → Bytes → Option V
  view s k = lookup (shard_at s (gethash k % s.shard_count)).table.buckets k

  pub record IsStore (s : KvStore V) : Type 0 where
    pub width : length s.shards ≡ s.shard_count
    pub sharded : 0 < s.shard_count
    pub sound : (i : ℕ) → i < s.shard_count → IsSound (shard_at s i)

  abbrev pub HasRoomFor : Bytes → KvStore V → Type 0
  HasRoomFor key s = HasRoom (shard_at s (gethash key % s.shard_count))

  -- What a call on one shard leaves, `g` telling what becomes of the value of each key.
  pub record OnShard {κ ι} {B : Type κ} (P : B → Type ι) (g : Bytes → Option V → Option V)
      (shard : Shard V) (r : B × Shard V) : Type (ℓ ⊔ ι) where
    pub sound : IsSound r.1
    pub answer : P r.0
    pub maps : (k : Bytes) → lookup r.1.table.buckets k ≡ g k (lookup shard.table.buckets k)

  -- The same for the whole store.
  pub record OnStore {κ ι} {B : Type κ} (P : B → Type ι) (g : Bytes → Option V → Option V)
      (s : KvStore V) (r : B × KvStore V) : Type (ℓ ⊔ ι) where
    pub store : IsStore r.1
    pub answer : P r.0
    pub maps : (k : Bytes) → view r.1 k ≡ g k (view s k)

  pub with_shard-OnStore {κ ι} :
      {B : Type κ} (P : B → Type ι) (g : Bytes → Option V → Option V) (key : Bytes)
      (f : Shard V → Outcome (B × Shard V)) (s : KvStore V)
      → IsStore s
      → ((k : Bytes) (o : Option V) → (k =ᵇ key) ≡ false → g k o ≡ o)
      → Returns
          (f (shard_at s (gethash key % s.shard_count)))
          (OnShard P g (shard_at s (gethash key % s.shard_count)))
      → Returns (with_shard key f s) (OnStore P g s)
  unfolding with_shard
  with_shard-OnStore P g key f s store local (r, run, done) =
      let i = gethash key % s.shard_count in
      let inside : i < s.shard_count = mod-lt (gethash key) store.sharded in
      let rooms : (s.shard_count == 0) ≡ false = ground (arith, store.sharded) in
      let there =
        get_or-set_self s.shards i r.1 (new_shard dflt) (omega (arith, inside, store.width)) in
      let u : KvStore V = record s { shards = write s.shards i r.1 } in
      let elsewhere : (j : ℕ) → (j == i) ≡ false → shard_at u j ≡ shard_at s j = λ j e.
        get_or-set_ne s.shards i j r.1 (new_shard dflt)
          (λ x. Bool-contra _ ((==_iff j i).1 (sym x)) e) in
      (
        (r.0, u),
        rw
            (
              rooms,
              index-get_or s.shards i (new_shard dflt) (omega (arith, inside, store.width)),
              run,
            )
            refl,
        record {
          store = record {
            width = length-set s.shards i r.1 ∙ store.width;
            sharded = store.sharded;
            sound = λ j h. elim (Bool-cases (j == i)) [
              | inl e ↦
                  subst (λ x. IsSound (shard_at u x)) (sym ((==_iff j i).0 e))
                    (subst IsSound (sym there) done.sound)
              | inr e ↦ subst IsSound (sym (elsewhere j e)) (store.sound j h)
            ];
          };
          answer = done.answer;
          maps = λ k. elim (Bool-cases (gethash k % s.shard_count == i)) [
            | inl e ↦
                let same = (==_iff _ _).0 e in
                ap (λ x. lookup (shard_at u x).table.buckets k) same
                ∙ ap (λ x. lookup x.table.buckets k) there
                ∙ done.maps k
                ∙ ap (λ x. g k (lookup (shard_at s x).table.buckets k)) (sym same)
            | inr e ↦
                ap (λ x. lookup x.table.buckets k) (elsewhere _ e)
                ∙ sym (local k (view s k) (apart k e))
          ];
        },
      )
    where
      apart :
          (k : Bytes)
          → (gethash k % s.shard_count == gethash key % s.shard_count) ≡ false
          → (k =ᵇ key) ≡ false
      apart k e = elim (Bool-cases (k =ᵇ key)) [
        | inr n ↦ n
        | inl y ↦
            absurd (
              Bool-contra _ ((==_iff _ _).1 (ap (λ x. gethash x % s.shard_count) (=ᵇ→eq k key y)))
                e)
      ]
