-- ===== src/Raft/Message.antt =====
-- The messages of a group, and the parsing of their text (raft/RaftNode.cpp, first two parts).
pub mod Parse
use kvjet.Prelude.{
  ℕ, zero, suc, ◌+◌, ◌-◌, ◌*◌, ◌%◌, ◌^◌, Bool, true, false, ◌&&◌, ◌||◌, List, [], ◌∷◌, ◌++◌, Bytes,
  codes, length, ltb, leb, ◌==◌, if◌then◌else◌,
}
use kvjet.Prelude.Decimal.{to_string}
use kvjet.Prelude.Outcome.{Outcome, ok, raised, undefined}

-- `LogEntry`
pub record LogEntry : Type 0 where
  pub term : ℕ
  pub command : Bytes

-- `RaftMessage`
pub record RaftMessage : Type 0 where
  pub target : ℕ
  pub payload : Bytes

-- A simple string of a message, with its line end.
abbrev pub line : Bytes → Bytes
line s = b'+' ∷ (s ++ 13 ∷ 10 ∷ [])

abbrev pub lines : List Bytes → Bytes
lines [] = []
lines (l ∷ ls) = line l ++ lines ls

-- The head of an array of `n` elements.
abbrev pub head : ℕ → Bytes
head n = b'*' ∷ (to_string n ++ 13 ∷ 10 ∷ [])

abbrev pub commands : List LogEntry → List Bytes
commands [] = []
commands (e ∷ es) = e.command ∷ commands es

unfoldable pub encode_append_entries : ℕ → ℕ → ℕ → ℕ → ℕ → List LogEntry → Bytes
encode_append_entries gid term prev_idx prev_term leader_commit entries =
    let count = length entries in
    head (7 + count)
    ++ lines (
        codes "RAFT_AE"
        ∷ to_string gid
        ∷ to_string term
        ∷ to_string prev_idx
        ∷ to_string prev_term
        ∷ to_string leader_commit
        ∷ to_string count
        ∷ commands entries)

-- The flags are printed behind a `+` of their own.
abbrev pub flag : Bool → Bytes
flag b = if b then codes "+1" else codes "+0"

unfoldable pub encode_append_entries_reply : ℕ → ℕ → Bool → ℕ → Bytes
encode_append_entries_reply gid term success match_idx =
    head 5
    ++ lines (
        codes "RAFT_AER" ∷ to_string gid ∷ to_string term ∷ flag success ∷ to_string match_idx ∷ [])

unfoldable pub encode_request_vote : ℕ → ℕ → ℕ → ℕ → Bytes
encode_request_vote gid term last_idx last_term =
    head 5
    ++ lines (
        codes "RAFT_RV"
        ∷ to_string gid
        ∷ to_string term
        ∷ to_string last_idx
        ∷ to_string last_term
        ∷ [])

unfoldable pub encode_request_vote_reply : ℕ → ℕ → Bool → Bytes
encode_request_vote_reply gid term granted =
    head 4 ++ lines (codes "RAFT_RVR" ∷ to_string gid ∷ to_string term ∷ flag granted ∷ [])

-- A chunk before a `\r` counts if it begins with `+`.
abbrev pub keep_chunk : Bytes → List Bytes → List Bytes
keep_chunk [] parts = parts
keep_chunk (c ∷ chunk) parts = if c == b'+' then chunk ∷ parts else parts

-- The loop of `parseParts`, `chunk` being `raw[start, pos)`: `start = pos + 2` skips the byte behind
-- the `\r`, whatever it is.
unfoldable pub parse_from : Bytes → Bytes → List Bytes
parse_from chunk [] = []
parse_from chunk (c ∷ []) = if c == 13 then keep_chunk chunk [] else []
parse_from chunk (c ∷ d ∷ raw) = elim (c == 13) [
  | true ↦ keep_chunk chunk (parse_from [] raw)
  | false ↦ parse_from (chunk ++ c ∷ []) (d ∷ raw)
]

unfoldable pub parse_parts : Bytes → List Bytes
unfolding parse_from
parse_parts raw = parse_from [] raw

-- `parts[i]`, which is not checked.
abbrev pub part : List Bytes → ℕ → Outcome Bytes
part [] i = undefined
part (p ∷ ps) zero = ok p
part (p ∷ ps) (suc i) = part ps i

abbrev is_space : ℕ → Bool
is_space c = c == 32 || leb 9 c && leb c 13

abbrev skip_space : Bytes → Bytes
skip_space [] = []
skip_space (c ∷ s) = if is_space c then skip_space s else c ∷ s

-- The digits at the front of a text, read behind the number `n`.
unfoldable pub leading_digits : Bytes → ℕ → ℕ
leading_digits [] n = n
leading_digits (c ∷ s) n =
    let rest = leading_digits s (n * 10 + (c - b'0')) in
    if leb b'0' c && leb c b'9' then rest else n

abbrev starts_with_digit : Bytes → Bool
starts_with_digit [] = false
starts_with_digit (c ∷ s) = leb b'0' c && leb c b'9'

-- The digits of `std::stoull` behind the sign. A minus wraps around.
abbrev magnitude : Bool → Bytes → Outcome ℕ
magnitude minus s =
    if starts_with_digit s
    then (let n = leading_digits s 0 in
        if ltb n (2 ^ 64) then ok (if minus then (2 ^ 64 - n) % 2 ^ 64 else n) else raised "stoull")
    else raised "stoull"

abbrev signed : Bytes → Outcome ℕ
signed [] = raised "stoull"
signed (c ∷ s) =
    if c == b'-'
    then magnitude true s
    else if c == b'+'
    then magnitude false s
    else magnitude false (c ∷ s)

-- `std::stoull`, which throws where no digit follows the sign or the number is too large.
unfoldable pub stoull : Bytes → Outcome ℕ
unfolding leading_digits
stoull s = signed (skip_space s)
