-- ===== src/Raft/Message/Parse.antt =====
-- What `parseParts` finds in the text of a message.
use kvjet.Prelude.{
  ℕ, List, [], ◌∷◌, ◌++◌, ◌≡◌, ◌≢◌, refl, Bytes, arith, All, append_assoc, append-nil, Bool, true,
  false, ◌∙◌,
}
use kvjet.Prelude.Decimal.{to_string, IsLine, to_string-IsLine}
use kvjet.Raft.Message.{line, lines, head, keep_chunk, parse_from, parse_parts, flag}

skip_byte :
    (chunk raw : Bytes) (c d : ℕ)
    → c ≢ 13
    → parse_from chunk (c ∷ d ∷ raw) ≡ parse_from (chunk ++ c ∷ []) (d ∷ raw)
unfolding parse_from
skip_byte chunk raw c d h = ground arith

parse_from-chunk :
    (l chunk rest : Bytes)
    → IsLine l
    → parse_from chunk (l ++ 13 ∷ 10 ∷ rest) ≡ keep_chunk (chunk ++ l) (parse_from [] rest)
parse_from-chunk [] chunk rest h = unfold parse_from in rw append-nil
parse_from-chunk (c ∷ []) chunk rest h =
    rw (skip_byte chunk (10 ∷ rest) c 13 h.0) (unfold parse_from in refl)
parse_from-chunk (c ∷ d ∷ l) chunk rest h = rw (
  skip_byte chunk (l ++ 13 ∷ 10 ∷ rest) c d h.0,
  parse_from-chunk (d ∷ l) (chunk ++ c ∷ []) rest h.1,
  append_assoc,
)

pub parse_from-line :
    (l rest : Bytes) → IsLine l → parse_from [] (line l ++ rest) ≡ l ∷ parse_from [] rest
parse_from-line l rest h = rw append_assoc (parse_from-chunk (b'+' ∷ l) [] rest (omega arith, h))

parse_from-lines : (ls : List Bytes) → All IsLine ls → parse_from [] (lines ls) ≡ ls
parse_from-lines [] h = unfold parse_from in refl
parse_from-lines (l ∷ ls) h = rw (parse_from-line l (lines ls) h.0, parse_from-lines ls h.1)

pub parse_parts-head : (n : ℕ) (rest : Bytes) → parse_parts (head n ++ rest) ≡ parse_from [] rest
unfolding parse_parts
parse_parts-head n rest =
    rw append_assoc
      (parse_from-chunk (b'*' ∷ to_string n) [] rest (omega arith, to_string-IsLine n))

-- A message of lines is taken apart into its lines.
pub parse_parts-lines :
    (n : ℕ) (ls : List Bytes) → All IsLine ls → parse_parts (head n ++ lines ls) ≡ ls
parse_parts-lines n ls h = parse_parts-head n (lines ls) ∙ parse_from-lines ls h

pub flag-IsLine : (b : Bool) → IsLine (flag b)
flag-IsLine true = omega arith
flag-IsLine false = omega arith
