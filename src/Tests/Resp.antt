-- ===== src/Tests/Resp.antt =====
-- The parser and the encoder on concrete messages.
use mathlib.Core.List.{flatten}
use kvjet.Prelude.{All, List, [], ◌∷◌, ◌++◌, ◌≡◌, refl, Bytes, codes, some, arith}
use kvjet.Prelude.Decimal.{to_string_ℤ}
use kvjet.Prelude.Int.{negsuc}
use kvjet.Prelude.Outcome.{ok}
use kvjet.Resp.Value.{Value, simple, bulk, integer, nil_array, array, nil, cons}
use kvjet.Resp.Encoder.{encode, crlf}
use kvjet.Resp.Parser.{RespParser, new, wait_type}
use kvjet.Resp.Parser.RoundTrip.{IsEncodable, encode_all, append_all, append_all-encode}

abbrev set_command : Value
set_command = array (
    cons (simple (codes "SET")) (
      cons (simple (codes "k")) (
        cons
          (array (cons (bulk (some (codes "v"))) (cons (integer (negsuc 41)) (cons nil_array nil))))
          nil)))

abbrev messages : List Value
messages = set_command ∷ simple (codes "OK") ∷ []

-- `*3` `+SET` `+k` `*3` `$1` `v` `:-42` `*-1` `+OK`, cut within a size and within a line end.
abbrev chunks : List Bytes
chunks =
    codes "*3"
    ∷ (13 ∷ 10 ∷ codes "+SET" ++ 13 ∷ [])
    ∷ (10 ∷ codes "+k"
        ++ crlf
        ++ codes "*3"
        ++ crlf
        ++ codes "$1"
        ++ crlf
        ++ codes "v"
        ++ crlf
        ++ codes ":-4")
    ∷ (codes "2" ++ crlf ++ codes "*-1" ++ crlf ++ codes "+OK" ++ crlf)
    ∷ []

chunks-encode_all : flatten chunks ≡ encode_all messages
unfolding flatten encode to_string_ℤ
chunks-encode_all = refl

messages-IsEncodable : All IsEncodable messages
unfolding IsEncodable
messages-IsEncodable = (
  (omega arith, (omega arith, (omega arith, ((omega arith, (omega arith, (refl, (tt, tt)))), tt)))),
  (omega arith, tt),
)

append_all-encode_example :
    (q : RespParser) × (append_all chunks new ≡ ok q)
    × (q.queue ≡ messages)
    × (q.state ≡ wait_type)
    × (q.stack ≡ [])
append_all-encode_example =
    append_all-encode messages chunks new messages-IsEncodable chunks-encode_all refl refl
