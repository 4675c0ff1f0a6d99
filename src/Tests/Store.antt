-- ===== src/Tests/Store.antt =====
-- Runs of the storage engine on concrete inputs.
use kvjet.Prelude.{
  is_some, some, Option, ℕ, ◌<◌, List, [], ◌∷◌, none, some, ◌≡◌, refl, Bytes, codes, replicate,
  arith, sym, ◌∙◌, subst, ◌=ᵇ◌, if◌then◌else◌, ◌%◌,
}
use kvjet.Prelude.Outcome.{ok_inj, ok, Returns}
use kvjet.Store.HashTable.{
  occupied, empty_node, HashTable, gethash, find, probe, get, set, erase, rehash, new,
}
use kvjet.Store.KvStore as Kv
use kvjet.Store.KvStore.{KvStore, Shard, new_shard, with_shard}
use kvjet.Store.KvStore.View.{IsStore, HasRoom, HasRoomFor, OnStore, view, shard_at}
use kvjet.Store.KvStore.Calls.{set-OnStore, del-OnStore, new-IsStore}
use kvjet.Store.Lru as Recent
use kvjet.Store.Lru.{Lru}
use kvjet.Store.Lru.Order.{spec_set, keys}
use kvjet.Store.Lru.Linked.{new-IsLinked}
use kvjet.Store.Lru.Evict.{Sets, set-Sets}
use kvjet.Store.HashTable.Search.{IsValid}
use kvjet.Store.HashTable.Vacancy.{empties}
use kvjet.Store.HashTable.Update.{Stored, set-Stored, Erased, erase-Erased}
use kvjet.Store.HashTable.Rehash.{replicate-IsPlaced}
use kvjet.Store.HashTable.Growth.{set_all, last_value, Answers, set_all-Answers}

abbrev dflt : ℕ
dflt = 0

new-IsValid : IsValid dflt (new dflt)
unfolding new
new-IsValid = record { width = refl; placed = replicate-IsPlaced dflt 16 (omega arith) }

new_room : 0 < empties (new dflt).buckets
unfolding new empties
new_room = omega arith

-- `a` is set to 5 in a new table.
abbrev with_a : Returns (set dflt (new dflt) (codes "a") 5) (Stored dflt (new dflt) (codes "a") 5)
with_a = set-Stored dflt (new dflt) (codes "a") 5 new-IsValid new_room

set-Stored_example :
    Returns (set dflt (new dflt) (codes "a") 5) (Stored dflt (new dflt) (codes "a") 5)
set-Stored_example = set-Stored dflt (new dflt) (codes "a") 5 new-IsValid new_room

abbrev one : HashTable ℕ
one = record {
  buckets =
      (record { key = codes "a"; value = 5; status = occupied }) ∷ replicate 15 (empty_node dflt);
  bucketsz = 16;
  sz = 1;
}

set_a : set dflt (new dflt) (codes "a") 5 ≡ ok one
unfolding set new get find probe gethash rehash
set_a = refl

one-IsValid : IsValid dflt one
one-IsValid = ok_subst (IsValid dflt) (sym with_a.1 ∙ set_a) with_a.2.valid
  where
    ok_subst : (P : HashTable ℕ → Type 0) {t u : HashTable ℕ} → ok t ≡ ok u → P t → P u
    ok_subst P e p = subst P (cc) p

one_room : 0 < empties one.buckets
unfolding empties
one_room = omega arith

erase-Erased_example : Returns (erase one (codes "a")) (Erased dflt one (codes "a"))
erase-Erased_example = erase-Erased dflt one (codes "a") one-IsValid one_room

-- `b` twice, and a key between.
abbrev writes : List (Bytes × ℕ)
writes = (codes "b", 1) ∷ (codes "c", 2) ∷ (codes "b", 3) ∷ []

set_all-Answers_example :
    Returns
      (set_all dflt writes (new dflt))
      (Answers (codes "b") (last_value writes (codes "b") none))
set_all-Answers_example = set_all-Answers dflt writes (codes "b")

-- A store of two shards, and what it is after `a` is set to 5.
abbrev shards : KvStore ℕ
shards = Kv.new dflt 2

abbrev links_a : Lru
links_a = record {
  maxsz = 100000;
  lst = (record { id = 1; key = codes "a" }) ∷ [];
  hash = record {
    buckets =
        (record { key = codes "a"; value = 1; status = occupied }) ∷ replicate 15 (empty_node 0);
    bucketsz = 16;
    sz = 1;
  };
  fresh = 2;
}

abbrev stored : KvStore ℕ
stored = record {
  shard_count = 2;
  shards = (record { table = one; lru = links_a }) ∷ new_shard dflt ∷ [];
}

new_shard-HasRoom : HasRoom dflt (new_shard dflt)
unfolding new empties Recent.new
new_shard-HasRoom = record { in_table = omega arith; in_links = omega arith }

shards-HasRoomFor : HasRoomFor dflt (codes "a") shards
unfolding Kv.new gethash
shards-HasRoomFor = new_shard-HasRoom

set-OnStore_example : Returns (Kv.set dflt (codes "a") 5 shards) (
    OnStore dflt
      (λ evicted.
        evicted
        ≡ (spec_set
            (shard_at dflt shards (gethash (codes "a") % shards.shard_count)).lru.maxsz
            (codes "a")
            (keys (shard_at dflt shards (gethash (codes "a") % shards.shard_count)).lru.lst)).0)
      (λ k o. if k =ᵇ codes "a" then some 5 else o)
      shards)
set-OnStore_example =
    set-OnStore dflt (codes "a") 5 shards (new-IsStore dflt 2 (omega arith)) shards-HasRoomFor

run_set : Kv.set dflt (codes "a") 5 shards ≡ ok (none, stored)
unfolding Kv.set Kv.new with_shard set new get find probe gethash rehash Recent.set Recent.add
    Recent.evict Recent.new
run_set = refl

stored-IsStore : IsStore dflt stored
stored-IsStore = ok_subst (sym made.1 ∙ run_set) made.2.store
  where
    made :
        Returns
          (Kv.set dflt (codes "a") 5 shards)
          (OnStore dflt (λ _. Unit {0}) (λ k o. if k =ᵇ codes "a" then some 5 else o) shards)
    made = (
      set-OnStore_example.0,
      set-OnStore_example.1,
      record {
        store = set-OnStore_example.2.store;
        answer = tt;
        maps = set-OnStore_example.2.maps;
      },
    )

    ok_subst :
        {r : Option Bytes × KvStore ℕ}
        → ok r ≡ ok (none, stored)
        → IsStore dflt r.1
        → IsStore dflt stored
    ok_subst e h = subst (λ (x : Option Bytes × KvStore ℕ). IsStore dflt x.1) (ok_inj e) h

stored_room : HasRoomFor dflt (codes "a") stored
unfolding empties gethash
stored_room = record { in_table = omega arith; in_links = omega arith }

del-OnStore_example : Returns (Kv.del (codes "a") stored) (
    OnStore dflt
      (λ answer. answer ≡ is_some (view dflt stored (codes "a")))
      (λ k o. if k =ᵇ codes "a" then none else o)
      stored)
del-OnStore_example = del-OnStore dflt (codes "a") stored stored-IsStore stored_room

-- A list of at most one key: the second one evicts the first.
abbrev tiny : Lru
tiny = Recent.new 1

tiny_room : 1 < empties tiny.hash.buckets
unfolding Recent.new new empties
tiny_room = omega arith

set-Sets_example :
    Returns
      (Recent.set (codes "a") tiny)
      (Sets tiny (spec_set tiny.maxsz (codes "a") (keys tiny.lst)))
set-Sets_example = set-Sets (codes "a") tiny (new-IsLinked 1) tiny_room
