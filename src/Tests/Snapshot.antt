-- ===== src/Tests/Snapshot.antt =====
-- Snapshots of small tables and stores.
use kvjet.Prelude.{
  ℕ, zero, suc, ◌<◌, true, [], ◌∷◌, none, some, ◌≡◌, refl, codes, replicate, arith, sym, ◌∙◌, subst,
  All, All-replicate, ◌=ᵇ◌,
}
use kvjet.Prelude.Outcome.{Outcome, ok, ok_inj, ◌>>=◌, Returns}
use kvjet.Resp.Value.{Value, simple, bulk}
use kvjet.Resp.Encoder.{encode, encode_bulk_string}
use kvjet.Prelude.Decimal.{to_string}
use kvjet.Resp.Parser.RoundTrip.{IsEncodable}
use kvjet.Store.HashTable.{
  deleted, occupied, Node, empty_node, HashTable, gethash, get, set, erase, new, find, probe,
  rehash,
}
use kvjet.Resp.Parser.{step, push}
use kvjet.Store.HashTable.Snapshot.Untouched.{IsUsed}
use kvjet.Store.HashTable.Search.{IsValid}
use kvjet.Store.HashTable.Vacancy.{empties}
use kvjet.Store.HashTable.Update.{set-Stored}
use kvjet.Store.HashTable.Growth.{new-IsValid}
use kvjet.Store.HashTable.Snapshot.{write_to_file, read_from_file, u32_bytes}
use kvjet.Store.HashTable.Snapshot.Reload.{
  in_use, FitsSlot, Fits, reload, read_from_file-write_to_file,
}
use kvjet.Store.Lru as Recent
use kvjet.Store.Lru.Linked.{new-IsLinked}
use kvjet.Store.KvStore as Kv
use kvjet.Store.KvStore.{KvStore, Shard}
use kvjet.Store.KvStore.View.{IsStore, IsSound, shard_at}
use kvjet.Store.KvStore.Calls.{new-IsStore}
use kvjet.Store.KvStore.Snapshot as Dir
use kvjet.Store.KvStore.Snapshot.Reload.{IsSettled, Reloads, read_from_file-Reloads}

abbrev dflt : Value
dflt = simple []

abbrev x : Value
x = bulk (some (codes "x"))

abbrev at_a : Node Value
at_a = record { key = codes "a"; value = x; status = occupied }

-- An entry and a tombstone.
abbrev pair : HashTable Value
pair = record {
  buckets =
      at_a
      ∷ (record { key = codes "q"; value = x; status = deleted })
      ∷ empty_node dflt
      ∷ empty_node dflt
      ∷ [];
  bucketsz = 4;
  sz = 1;
}

at_a-Fits : Fits at_a
unfolding IsEncodable encode to_string encode_bulk_string
at_a-Fits = record { printable = omega arith; short_key = omega arith; short_value = omega arith }

pair_counted : pair.sz ≡ in_use pair.buckets
unfolding in_use
pair_counted = refl

pair-FitsSlot : All FitsSlot pair.buckets
pair-FitsSlot = ((λ _. at_a-Fits), ((λ e. cc), ((λ e. cc), ((λ e. cc), tt))))

read_from_file-write_to_file_example :
    Returns
      (write_to_file true pair)
      (λ file. read_from_file dflt (some file) ≡ ok (reload dflt pair))
read_from_file-write_to_file_example =
    read_from_file-write_to_file dflt pair refl (omega arith) pair_counted pair-FitsSlot

-- The keys `a` and `q` have the same home slot. Once `a` is deleted, `q` is there, but a table that
-- is read from the snapshot does not find it.
abbrev erased : Outcome (HashTable Value)
erased = set dflt (new dflt) (codes "a") x >>= λ t.
    set dflt t (codes "q") x >>= λ u. erase u (codes "a") >>= λ r. ok r.0

found_before : (erased >>= λ t. get t (codes "q")) ≡ ok (some x)
unfolding set new get erase find probe gethash rehash ◌=ᵇ◌
found_before = refl

lost_after :
    (erased >>= write_to_file true >>= λ file.
    read_from_file dflt (some file) >>= λ t. get t (codes "q"))
    ≡ ok none
unfolding set new get erase find probe gethash rehash write_to_file read_from_file u32_bytes encode
    to_string ◌=ᵇ◌ step push
lost_after = refl

-- A store of one shard that holds `a`.
abbrev one : HashTable Value
one = record { buckets = at_a ∷ replicate 15 (empty_node dflt); bucketsz = 16; sz = 1 }

set_a : set dflt (new dflt) (codes "a") x ≡ ok one
unfolding set new get find probe gethash rehash
set_a = refl

new_room : 0 < empties (new dflt).buckets
unfolding new empties
new_room = omega arith

one-IsValid : IsValid dflt one
one-IsValid =
    let (t, run, stored) = set-Stored dflt (new dflt) (codes "a") x (new-IsValid dflt) new_room in
    subst (IsValid dflt) (ok_inj (sym run ∙ set_a)) stored.valid

abbrev holding : KvStore Value
holding = record {
  shard_count = 1;
  shards = (record { table = one; lru = Recent.new 100000 }) ∷ [];
}

holding-IsStore : IsStore dflt holding
holding-IsStore = record {
  width = refl;
  sharded = omega arith;
  sound = λ i h.
      elim i as (λ k. k < 1 → IsSound dflt (shard_at dflt holding k)) [
        | zero ↦ λ h. record { valid = one-IsValid; links = new-IsLinked 100000 }
        | suc j ↦ λ h. absurd (omega (arith, h))
      ]
        h;
}

one_counted : one.sz ≡ in_use one.buckets
unfolding in_use
one_counted = refl

holding-IsSettled : (i : ℕ) → i < 1 → IsSettled dflt (shard_at dflt holding i)
holding-IsSettled zero h = record {
  writable = record {
    width = refl;
    small = omega arith;
    counted = one_counted;
    fits = ((λ _. at_a-Fits), All-replicate FitsSlot 15 (empty_node dflt) (λ e. cc));
  };
  used = (refl, All-replicate IsUsed 15 (empty_node dflt) refl);
}
holding-IsSettled (suc j) h = absurd (omega arith)

read_from_file-Reloads_example :
    Returns
      (Dir.write_to_file_fork (λ _. true) holding >>= λ dir.
        Dir.read_from_file dflt (λ _. true) dir (Kv.new dflt 1))
      (Reloads dflt holding)
unfolding Kv.new
read_from_file-Reloads_example =
    read_from_file-Reloads dflt holding (Kv.new dflt 1) holding-IsStore
      (new-IsStore dflt 1 (omega arith)) refl holding-IsSettled
