-- ===== src/Raft/Disk/Load.antt =====
-- The lines of the log file, read by `getline`.
use kvjet.Prelude.{true, false, List, [], ◌∷◌, ◌++◌, Bytes, Option, none, some, ◌==◌, if◌then◌else◌}
use kvjet.Prelude.Outcome.{Outcome, ok, ◌>>=◌}
use kvjet.Raft.Message.{LogEntry, stoull}

-- `line.find(' ')` with the parts before and behind it.
unfoldable pub split_space : Bytes → Option (Bytes × Bytes)
split_space [] = none
split_space (c ∷ s) =
    if c == 32
    then some ([], s)
    else elim (split_space s) [ none ↦ none | some (a, b) ↦ some (c ∷ a, b) ]

-- One round of the loop: the entries that a line adds.
unfoldable pub load_line : Bytes → Outcome (List LogEntry)
unfolding split_space
load_line text = elim (split_space text) [
  | none ↦ ok []
  | some (prefix, rest) ↦ stoull prefix >>= λ t. ok (record { term = t; command = rest } ∷ [])
]

-- The loop over the lines, `text` being the line so far. Characters behind the last line end are a
-- line too, if there are any; an empty line is passed over.
unfoldable pub load_from : Bytes → Bytes → Outcome (List LogEntry)
unfolding load_line
load_from text [] = load_line text
load_from text (c ∷ s) = elim (c == 10) [
  | true ↦ load_line text >>= λ es. load_from [] s >>= λ fs. ok (es ++ fs)
  | false ↦ load_from (text ++ c ∷ []) s
]

unfoldable pub load_lines : Bytes → Outcome (List LogEntry)
unfolding load_from
load_lines s = load_from [] s
