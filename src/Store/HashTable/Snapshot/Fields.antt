-- ===== src/Store/HashTable/Snapshot/Fields.antt =====
-- kvstore/HashTable: the fields of a snapshot's entries, read as they were written.
use mathlib.Core.List.{flatten}
use kvjet.Prelude.{
  ℕ, zero, suc, ◌<◌, ◌^◌, List, [], ◌∷◌, ◌++◌, Bytes, length, ◌≡◌, refl, ap, ◌∙◌, sym, arith,
  replicate, ◌==◌, false, none, append-nil, some, length-replicate,
}
use kvjet.Prelude.Outcome.{ok}
use kvjet.Resp.Value.{Value, simple, error, integer, bulk, nil_array, array}
use kvjet.Resp.Encoder.{
  encode, encode_simple_string, encode_error, encode_integer, encode_bulk_string,
}
use kvjet.Resp.Parser.{RespParser, append, has_result, get_result}
use kvjet.Resp.Parser.{new as new_parser}
use kvjet.Resp.Parser.RoundTrip.{IsEncodable, append_all-flatten, append_all-encode}
use kvjet.Store.HashTable.Snapshot.{
  u32_bytes, read_u32, resize, first_value, read_into, read_key, read_value,
}

pub read_u32-u32_bytes :
    (n : ℕ) (file : Bytes) → n < 2 ^ 32 → read_u32 (u32_bytes n ++ file) ≡ ok (n, file)
unfolding read_u32 u32_bytes
read_u32-u32_bytes n file h = ap (λ x. ok (x, file)) (omega arith)

read_into-append :
    (old s file : Bytes) → length old ≡ length s → read_into old (s ++ file) ≡ (s, file)
unfolding read_into
read_into-append [] [] file e = refl
read_into-append [] (c ∷ s) file e = absurd (omega arith)
read_into-append (o ∷ old) [] file e = absurd (omega arith)
read_into-append (o ∷ old) (c ∷ s) file e =
    ap (λ r. (c ∷ r.0, r.1)) (read_into-append old s file (omega (arith, e)))

length-resize : (n : ℕ) → length (resize n []) ≡ n
unfolding resize
length-resize zero = refl
length-resize (suc n) =
    ap (λ m. length {A = ℕ} (replicate m 0)) {y = suc n} (omega arith) ∙ length-replicate (suc n) 0

not_zero : (n : ℕ) → 0 < n → (n == 0) ≡ false
not_zero n h = ground arith

-- The key of a slot that has not been read into is empty.
pub read_key-append : (key file : Bytes) → read_key (length key) [] (key ++ file) ≡ (key, file)
unfolding read_key
read_key-append [] file = refl
read_key-append (c ∷ key) file =
    let r = read_into-append (resize (suc (length key)) []) (c ∷ key) file (length-resize _) in
    rw (not_zero (suc (length key)) (omega arith)) r

encode_nonempty : (v : Value) → (length (encode v) == 0) ≡ false
unfolding encode encode_simple_string encode_error encode_integer encode_bulk_string
encode_nonempty (simple s) = not_zero _ (omega arith)
encode_nonempty (error s) = not_zero _ (omega arith)
encode_nonempty (integer n) = not_zero _ (omega arith)
encode_nonempty (bulk none) = refl
encode_nonempty (bulk (some s)) = not_zero _ (omega arith)
encode_nonempty nil_array = refl
encode_nonempty (array vs) = not_zero _ (omega arith)

append-encode :
    (v : Value)
    → IsEncodable v
    → (p : RespParser) × (append (encode v) new_parser ≡ ok p) × (p.queue ≡ v ∷ [])
unfolding flatten encode
append-encode v h =
    let (p, run, queued, _, _) =
      append_all-encode (v ∷ []) (encode v ∷ []) new_parser (h, tt) refl refl refl in
    let whole = append_all-flatten (encode v ∷ []) new_parser in
    (p, ap (λ bs. append bs new_parser) (sym (append-nil (encode v))) ∙ sym whole ∙ run, queued)

first_value-queue :
    (p : RespParser) (v : Value) (vs : List Value) → p.queue ≡ v ∷ vs → first_value p ≡ ok v
unfolding first_value has_result get_result
first_value-queue p v vs e = rw e refl

-- A value that can be printed is read back, and the rest of the file is left.
pub read_value-encode :
    (v w : Value) (file : Bytes)
    → IsEncodable v
    → read_value (length (encode v)) w (encode v ++ file) ≡ ok (v, file)
unfolding read_value
read_value-encode v w file h =
    let r = read_into-append (resize (length (encode v)) []) (encode v) file (length-resize _) in
    let (p, run, queued) = append-encode v h in
    rw (encode_nonempty v, r, run, first_value-queue p v [] queued) refl
