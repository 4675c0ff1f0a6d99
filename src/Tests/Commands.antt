-- ===== src/Tests/Commands.antt =====
-- Commands and their log on a store of two shards.
use kvjet.Prelude.{ℕ, List, [], ◌∷◌, some, codes, ◌≡◌, arith, All}
use kvjet.Prelude.Outcome.{Returns}
use kvjet.Resp.Value.{Value, simple, bulk}
use kvjet.Resp.Encoder.{encode}
use kvjet.Resp.Parser.RoundTrip.{IsEncodable}
use kvjet.Store.HashTable.{gethash, empty_node}
use kvjet.Store.HashTable as Table
use kvjet.Store.HashTable.Vacancy.{empties}
use kvjet.Store.Lru as Recent
use kvjet.Store.KvStore.{KvStore, new}
use kvjet.Store.KvStore.View.{HasRoomFor, OnStore, view}
use kvjet.Store.KvStore.Calls.{new-IsStore}
use kvjet.Commands.{handle_no_aof}
use kvjet.Commands.Replies.{set_key, get_key, request, reply, effect, handle_no_aof-OnStore}
use kvjet.Aof.{destroy, recover, handle_all}
use kvjet.Aof.Replay.{log_values, values, opened, recover-log_values}

abbrev dflt : Value
dflt = simple []

abbrev shards : KvStore Value
shards = new dflt 2

abbrev five : Value
five = bulk (some (codes "5"))

shards-HasRoomFor : HasRoomFor dflt (codes "a") shards
unfolding new gethash empties Table.new Recent.new
shards-HasRoomFor = record { in_table = omega arith; in_links = omega arith }

handle_no_aof-OnStore_example :
    Returns (handle_no_aof dflt (request (set_key (codes "a") five)) shards) (
      OnStore dflt
        (λ answer.
          answer ≡ encode (reply (set_key (codes "a") five) (view dflt shards (codes "a"))))
        (effect (set_key (codes "a") five))
        shards)
handle_no_aof-OnStore_example =
    handle_no_aof-OnStore dflt (set_key (codes "a") five) shards (new-IsStore dflt 2 (omega arith))
      shards-HasRoomFor

-- Two commands, the second of which is flushed at once.
abbrev calls : List (ℕ × ℕ × Value)
calls =
    (10, 10, request (set_key (codes "a") five)) ∷ (5000, 5001, request (get_key (codes "a"))) ∷ []

calls-IsEncodable : All IsEncodable (values calls)
unfolding IsEncodable
calls-IsEncodable = (
  (omega arith, (omega arith, (omega arith, (omega arith, tt)))),
  ((omega arith, (omega arith, (omega arith, tt))), tt),
)

recover-log_values_example :
    recover dflt (destroy 6000 (log_values calls opened)).file shards
    ≡ handle_all dflt (values calls) shards
recover-log_values_example = recover-log_values dflt calls 6000 shards calls-IsEncodable
