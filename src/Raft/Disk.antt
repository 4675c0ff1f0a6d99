-- ===== src/Raft/Disk.antt =====
-- The persistence of the log: `appendToDisk`, `flushDisk`, `rewriteDisk` and `loadFromDisk`. What is
-- written to the stream `logFile_` counts as written to the file.
pub mod Load
use kvjet.Prelude.{
  ℕ, zero, suc, ◌+◌, Bool, true, false, List, [], ◌∷◌, ◌++◌, Bytes, Option, none, some, length, ltb,
  leb, ◌==◌, if◌then◌else◌,
}
use kvjet.Prelude.Decimal.{to_string}
use kvjet.Prelude.Outcome.{Outcome, ok, ◌>>=◌}
use kvjet.Raft.Message.{LogEntry, stoull}
use kvjet.Raft.Node.{RaftNode, last_log_index, entries_from}
use kvjet.Raft.Disk.Load.{load_lines}

-- The line of an entry.
unfoldable pub entry_line : LogEntry → Bytes
entry_line e = to_string e.term ++ 32 ∷ (e.command ++ 10 ∷ [])

unfoldable pub entry_lines : List LogEntry → Bytes
unfolding entry_line
entry_lines [] = []
entry_lines (e ∷ es) = entry_line e ++ entry_lines es

unfoldable pub append_to_disk : LogEntry → RaftNode → RaftNode
append_to_disk e n =
    let buf = n.disk_buf ++ entry_line e in
    if leb 1024 (length buf)
    then record n { file = n.file ++ buf; disk_buf = [] }
    else record n { disk_buf = buf }

unfoldable pub flush_disk : RaftNode → RaftNode
flush_disk n = record n { file = n.file ++ n.disk_buf; disk_buf = [] }

-- A truncating stream of its own writes the log without the sentinel. The buffer is left alone.
unfoldable pub rewrite_disk : RaftNode → RaftNode
rewrite_disk n = record n { file = entry_lines (entries_from 1 n.log) }

unfoldable pub load_from_disk : RaftNode → Outcome RaftNode
load_from_disk n = load_lines n.file >>= λ es.
    let m : RaftNode = record n { log = n.log ++ es } in
    ok (record m { commit_index = last_log_index m; last_applied = 0 })
