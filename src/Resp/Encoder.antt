-- ===== src/Resp/Encoder.antt =====
-- resp/RespEncoder.cpp. Each function of the source appends to a string; here it returns the bytes
-- that it appends. `reserve` changes the capacity alone and is left out.
use kvjet.Prelude.{[], ◌∷◌, ◌++◌, none, some, Bytes, codes, length}
use kvjet.Prelude.Decimal.{to_string, to_string_ℤ}
use kvjet.Prelude.Int.{ℤ}
use kvjet.Prelude.{Option}
use kvjet.Resp.Value.{Value, Items, simple, bulk, error, integer, nil_array, array, nil, cons, size}

abbrev pub crlf : Bytes
crlf = 13 ∷ 10 ∷ []

unfoldable pub encode_simple_string : Bytes → Bytes
encode_simple_string msg = b'+' ∷ (msg ++ crlf)

unfoldable pub encode_error : Bytes → Bytes
encode_error msg = b'-' ∷ (msg ++ crlf)

unfoldable pub encode_integer : ℤ → Bytes
encode_integer num = b':' ∷ (to_string_ℤ num ++ crlf)

unfoldable pub encode_bulk_string : Option Bytes → Bytes
encode_bulk_string none = b'$' ∷ (codes "-1" ++ crlf)
encode_bulk_string (some s) = b'$' ∷ (to_string (length s) ++ (crlf ++ (s ++ crlf)))

-- `encode` is the dispatch on the alternative, for a whole message and for an array's element.
unfoldable mutual
  unfolding encode_simple_string encode_error encode_integer encode_bulk_string

  pub encode : Value → Bytes
  encode (simple s) = encode_simple_string s
  encode (error s) = encode_error s
  encode (integer n) = encode_integer n
  encode (bulk s) = encode_bulk_string s
  encode nil_array = b'*' ∷ (codes "-1" ++ crlf)
  encode (array vs) = b'*' ∷ (to_string (size vs) ++ (crlf ++ encode_items vs))

  pub encode_items : Items → Bytes
  encode_items nil = []
  encode_items (cons v vs) = encode v ++ encode_items vs
