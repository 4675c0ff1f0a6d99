-- ===== src/Store/HashTable/Snapshot.antt =====
-- kvstore/HashTable: `writetofile` and `readfromfile`. A file is its bytes; a number in it is an
-- `uint32_t` as the little-endian machine stores it.
pub mod Fields
pub mod Reload
pub mod Untouched
use kvjet.Prelude.{
  ℕ, zero, suc, ◌+◌, ◌-◌, ◌*◌, ◌/◌, ◌%◌, ◌^◌, Bool, List, [], ◌∷◌, ◌++◌, Option, none, some, Bytes,
  length, take, replicate, ◌==◌, if◌then◌else◌,
}
use kvjet.Prelude.{set as write}
use kvjet.Prelude.Outcome.{Outcome, ok, raised, undefined, index, ◌>>=◌}
use kvjet.Resp.Value.{Value}
use kvjet.Resp.Encoder.{encode}
use kvjet.Resp.Parser.{RespParser, append, has_result, get_result}
use kvjet.Resp.Parser.{new as new_parser}
use kvjet.Store.HashTable.{occupied, is_occupied, Node, HashTable, empty_node}

-- `(uint32_t)n`, written through a `char` pointer.
unfoldable pub u32_bytes : ℕ → Bytes
u32_bytes n = n % 256 ∷ n / 2 ^ 8 % 256 ∷ n / 2 ^ 16 % 256 ∷ n / 2 ^ 24 % 256 ∷ []

-- The bytes of a slot that is in use.
unfoldable pub entry_bytes : ℕ → Node Value → Bytes
entry_bytes i node =
    let value = encode node.value in
    u32_bytes i
    ++ (u32_bytes (length node.key) ++ (u32_bytes (length value) ++ (node.key ++ value)))

-- The loop of `writetofile`, `rounds` slots from the slot `i` on.
unfoldable pub write_entries : ℕ → ℕ → List (Node Value) → Outcome Bytes
unfolding entry_bytes
write_entries zero i bs = ok []
write_entries (suc rounds) i [] = undefined
write_entries (suc rounds) i (node ∷ bs) = write_entries rounds (i + 1) bs >>= λ rest.
    ok (if is_occupied node.status then entry_bytes i node ++ rest else rest)

-- `opened` says whether the file can be opened, after its directory has been made. A table of 2 ^ 32
-- slots or more would never be left by the loop, whose index has 32 bits.
unfoldable pub write_to_file : Bool → HashTable Value → Outcome Bytes
unfolding write_entries
write_to_file opened t =
    if opened
    then (write_entries t.bucketsz 0 t.buckets >>= λ entries.
        ok (u32_bytes t.bucketsz ++ (u32_bytes t.sz ++ entries)))
    else raised "File open failed."

-- `file.read` into a variable that has no value yet: a file that ends too early leaves it without.
unfoldable pub read_u32 : Bytes → Outcome (ℕ × Bytes)
read_u32 (a ∷ b ∷ c ∷ d ∷ file) = ok (a + 2 ^ 8 * b + 2 ^ 16 * c + 2 ^ 24 * d, file)
read_u32 _ = undefined

-- `string::resize`
unfoldable pub resize : ℕ → Bytes → Bytes
resize n s = take n s ++ replicate (n - length s) 0

-- `file.read` into a string, which keeps the bytes that the file has nothing for.
unfoldable pub read_into : Bytes → Bytes → Bytes × Bytes
read_into [] file = ([], file)
read_into (o ∷ old) [] = (o ∷ old, [])
read_into (o ∷ old) (c ∷ file) = let r = read_into old file in (c ∷ r.0, r.1)

unfoldable pub read_key : ℕ → Bytes → Bytes → Bytes × Bytes
unfolding resize read_into
read_key keysize key file =
    if keysize == 0 then (key, file) else read_into (resize keysize key) file

-- `hasResult` and `getResult().value()`
unfoldable pub first_value : RespParser → Outcome Value
unfolding has_result get_result
first_value p =
    if has_result p
    then elim (get_result p).0 [ none ↦ undefined | some v ↦ ok v ]
    else raised "Parser has no result!!!!!"

-- The reader of a value stops at the first message that the bytes hold.
unfoldable pub read_value : ℕ → Value → Bytes → Outcome (Value × Bytes)
unfolding resize read_into append first_value
read_value valuesize value file =
    let r = read_into (resize valuesize []) file in
    if valuesize == 0
    then ok (value, file)
    else append r.0 new_parser >>= first_value >>= λ v. ok (v, r.1)

-- A round of the loop of `readfromfile`.
unfoldable pub read_entry : Bytes → List (Node Value) → Outcome (List (Node Value) × Bytes)
unfolding read_u32 read_key read_value
read_entry file bs = read_u32 file >>= λ idx. index bs idx.0 >>= λ node.
    read_u32 idx.1 >>= λ keysize. read_u32 keysize.1 >>= λ valuesize.
    let key = read_key keysize.0 node.key valuesize.1 in
    read_value valuesize.0 node.value key.1 >>= λ value.
    ok (write bs idx.0 (record { key = key.0; value = value.0; status = occupied }), value.1)

unfoldable pub read_entries : ℕ → Bytes → List (Node Value) → Outcome (List (Node Value))
unfolding read_entry
read_entries zero file bs = ok bs
read_entries (suc rounds) file bs = read_entry file bs >>= λ r. read_entries rounds r.1 r.0

-- Without a file that can be opened, nothing is read. `dflt` is a default-constructed value.
unfoldable pub read_from_file : Value → Option Bytes → Outcome (HashTable Value)
unfolding read_u32 read_entries
read_from_file dflt none = raised "File open failed."
read_from_file dflt (some file) = read_u32 file >>= λ bucketsz. read_u32 bucketsz.1 >>= λ sz.
    read_entries sz.0 sz.1 (replicate bucketsz.0 (empty_node dflt)) >>= λ buckets.
    ok (record { buckets = buckets; bucketsz = bucketsz.0; sz = sz.0 })
