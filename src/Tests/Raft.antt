-- ===== src/Tests/Raft.antt =====
-- Nodes of a group on concrete inputs.
use kvjet.Prelude.{ℕ, [], ◌∷◌, ◌++◌, ◌≡◌, ◌≢◌, refl, codes, none, arith, true}
use kvjet.Prelude.Outcome.{Outcome, ok}
use kvjet.Raft.Node.{
  become_leader, become_follower, become_candidate, reset_election_timer, send_append_entries,
  send_request_vote, RaftNode, leader,
}
use kvjet.Prelude.{◌=ᵇ◌}
use kvjet.Prelude.Decimal.{to_string}
use kvjet.Raft.Message.{
  stoull, encode_append_entries, encode_append_entries_reply, encode_request_vote,
  encode_request_vote_reply,
}
use kvjet.Raft.Disk.{load_from_disk, append_to_disk, rewrite_disk, flush_disk, entry_line}
use kvjet.Raft.Disk.Load.{load_lines}
use kvjet.Raft.Handlers.{
  construct, tick, step, propose, handle_append_entries, handle_append_entries_reply,
  handle_request_vote, handle_request_vote_reply, accept_entries, store_or_refuse, store_entries,
  append_entry, reply_entries, reply_vote, decide_vote,
}
use kvjet.Raft.Handlers.Election
use kvjet.Raft.Handlers.Election.{vote, receives, vote_reply, never_leads, react}
use kvjet.Prelude.Outcome.{Returns}
use kvjet.Raft.Handlers.Sound.{Proposed, Run-returns}
use kvjet.Raft.Handlers.Votes
use kvjet.Raft.Handlers.Votes.{one_vote}

abbrev no_rand : ℕ → ℕ
no_rand k = 0

abbrev value_of : Outcome RaftNode → RaftNode
value_of (ok n) = n
value_of _ = record {
  current_term = 0;
  voted_for = none;
  log = [];
  commit_index = 0;
  last_applied = 0;
  state = leader;
  group_id = 0;
  self_id = 0;
  peers = [];
  next_index = [];
  match_index = [];
  vote_count = 0;
  election_timer = 0;
  heartbeat_timer = 0;
  drawn = 0;
  sent = [];
  disk_buf = [];
  file = [];
}

-- A node that read one entry from its log file.
abbrev node : RaftNode
node = value_of (construct no_rand 7 1 (2 ∷ 3 ∷ []) (codes "1 SET k v" ++ 10 ∷ []))

program : Unit {0}
unfolding construct load_from_disk load_lines stoull become_leader step tick propose
    send_append_entries send_request_vote encode_append_entries encode_append_entries_reply
    encode_request_vote encode_request_vote_reply to_string handle_append_entries
    handle_append_entries_reply handle_request_vote handle_request_vote_reply accept_entries
    store_or_refuse store_entries append_entry append_to_disk rewrite_disk flush_disk entry_line
    become_follower become_candidate reset_election_timer decide_vote ◌=ᵇ◌ reply_entries reply_vote
program = tt

started : construct no_rand 7 1 (2 ∷ 3 ∷ []) (codes "1 SET k v" ++ 10 ∷ []) ≡ ok node
unfolding program
started = refl

-- A vote request of term 5 is granted; a late positive reply is not counted.
abbrev voted : RaftNode
voted = value_of (react no_rand (receives 2 (vote 7 5 1 1)) node)

abbrev answered : RaftNode
answered = value_of (react no_rand (receives 3 (vote_reply 7 5 true)) voted)

never_leads_example : answered.state ≢ leader
unfolding program
never_leads_example =
    never_leads {rand = no_rand} {gid = 7} {self = 1} {p = 2} {ps = 3 ∷ []}
      {file = codes "1 SET k v" ++ 10 ∷ []}
      (Election.Reach.next (receives 3 (vote_reply 7 5 true))
        (Election.Reach.next (receives 2 (vote 7 5 1 1)) (Election.Reach.start started) refl) refl)
      (omega arith, (omega arith, tt))

-- The node that voted for 2 refuses 3 in the same term.
one_vote_example : Votes.Refused 3 voted (
    value_of (
      handle_request_vote no_rand 3
        (codes "RAFT_RV" ∷ codes "7" ∷ codes "5" ∷ codes "9" ∷ codes "9" ∷ [])
        voted))
unfolding program
one_vote_example =
    one_vote {rand = no_rand} {n = voted} Votes.Run.here 2 3
      (codes "RAFT_RV" ∷ codes "7" ∷ codes "5" ∷ codes "9" ∷ codes "9" ∷ []) _ (λ e. ground arith)
      tt refl (omega arith) (omega arith) refl refl refl

-- The node that read one entry has handled a vote request and then a tick.
Run-returns_example :
    Returns (tick no_rand voted) (λ k. k.log ≡ voted.log)
    × Returns (propose (codes "DEL k") voted) (Proposed (codes "DEL k") voted)
unfolding program
Run-returns_example =
    Run-returns no_rand 7 1 (2 ∷ 3 ∷ []) (codes "1 SET k v" ++ 10 ∷ []) {n = node} (codes "DEL k")
      (Votes.Run.next (Votes.Input.receives 2 (Election.text (vote 7 5 1 1))) Votes.Run.here refl)
      started (omega arith, tt)
