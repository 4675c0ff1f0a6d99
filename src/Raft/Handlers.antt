-- ===== src/Raft/Handlers.antt =====
-- The constructor, `tick`, `step`, the four message handlers and `propose` of raft/RaftNode.cpp.
mod Frame
pub mod Progress
mod Quiet
mod Step
pub mod Election
pub mod Votes
pub mod Sound
use kvjet.Prelude.{
  ℕ, zero, suc, ◌+◌, ◌-◌, ◌*◌, ◌/◌, ◌%◌, ◌^◌, Bool, true, false, ◌&&◌, ◌||◌, not, List, [], ◌∷◌,
  ◌++◌, Option, none, some, Bytes, codes, length, take, set, min, ltb, leb, ◌==◌, ◌=ᵇ◌,
  if◌then◌else◌,
}
use kvjet.Prelude.Outcome.{index, Outcome, ok, raised, undefined, ◌>>=◌}
use kvjet.Raft.Message.{
  LogEntry, RaftMessage, encode_append_entries_reply, encode_request_vote_reply, parse_parts, part,
  stoull,
}
use kvjet.Raft.Node.{
  State, follower, candidate, leader, RaftNode, sentinel, last_log_index, last_log_term, peer_index,
  position, send_cb, entries_from, send_append_entries, send_request_vote, reset_election_timer,
  become_follower, become_candidate, become_leader, advance_commit_index, quorum,
}
use kvjet.Raft.Disk.{append_to_disk, flush_disk, rewrite_disk, load_from_disk}

abbrev pub is_state : State → State → Bool
is_state follower follower = true
is_state candidate candidate = true
is_state leader leader = true
is_state _ _ = false

abbrev pub is_empty {ℓ} : {A : Type ℓ} → List A → Bool
is_empty [] = true
is_empty (x ∷ xs) = false

-- `part`, read as a number.
abbrev pub number_at : List Bytes → ℕ → Outcome ℕ
number_at parts i = part parts i >>= stoull

abbrev pub skip {ℓ} : {A : Type ℓ} → ℕ → List A → List A
skip zero xs = xs
skip (suc i) [] = []
skip (suc i) (x ∷ xs) = skip i xs

-- `log[i].term`, where the entry is there.
abbrev has_term : List LogEntry → ℕ → ℕ → Bool
has_term [] i term = false
has_term (e ∷ es) zero term = e.term == term
has_term (e ∷ es) (suc i) term = has_term es i term

-- One round of the loop over the entries of a message, at log index `idx`. The flag says whether the
-- log was cut.
unfoldable pub append_entry : ℕ → ℕ → Bytes → RaftNode × Bool → RaftNode × Bool
append_entry term idx cmd (n, truncated) =
    let cut = ltb idx (length n.log) && not (has_term n.log idx term) in
    let log = if cut then take idx n.log else n.log in
    let e : LogEntry = record { term = term; command = cmd } in
    let m : RaftNode = record n { log = log } in
    (
      if leb (length log) idx then append_to_disk e (record m { log = log ++ e ∷ [] }) else m,
      truncated || cut,
    )

unfoldable pub append_commands : ℕ → ℕ → List Bytes → RaftNode × Bool → RaftNode × Bool
unfolding append_entry
append_commands term idx [] s = s
append_commands term idx (cmd ∷ cmds) s =
    append_commands term (idx + 1) cmds (append_entry term idx cmd s)

-- The entries of a message, if it has any: `parts[6]` is their number.
unfoldable pub store_entries : ℕ → ℕ → List Bytes → RaftNode → Outcome RaftNode
unfolding append_commands
store_entries term prev_idx parts n =
    if ltb 6 (length parts)
    then (number_at parts 6 >>= λ count.
        let (m, truncated) =
          append_commands term (prev_idx + 1) (take count (skip 7 parts)) (n, false) in
        ok (if truncated then rewrite_disk m else m))
    else ok n

unfoldable pub reply_entries : ℕ → Bool → ℕ → RaftNode → RaftNode
reply_entries to success match_idx n =
    send_cb n to (encode_append_entries_reply n.group_id n.current_term success match_idx)

unfoldable pub reply_vote : ℕ → Bool → RaftNode → RaftNode
reply_vote to granted n = send_cb n to (encode_request_vote_reply n.group_id n.current_term granted)

-- `sendAppendEntries` to each of the peers.
unfoldable pub send_all : List ℕ → RaftNode → Outcome RaftNode
send_all [] n = ok n
send_all (p ∷ ps) n = send_append_entries n p >>= send_all ps

abbrev pub commit_up_to : ℕ → RaftNode → RaftNode
commit_up_to leader_commit n =
    if ltb n.commit_index leader_commit
    then record n { commit_index = min leader_commit (last_log_index n) }
    else n

-- The consistency check and what follows it in `handleAppendEntries`.
unfoldable pub store_or_refuse : ℕ → ℕ → ℕ → ℕ → ℕ → List Bytes → RaftNode → Outcome RaftNode
unfolding reply_entries
store_or_refuse from term prev_idx prev_term leader_commit parts m =
    if ltb 0 prev_idx && not (has_term m.log prev_idx prev_term)
    then ok (reply_entries from false 0 m)
    else (store_entries term prev_idx parts m >>= λ k.
        let done = commit_up_to leader_commit k in
        ok (reply_entries from true (last_log_index done) done))

-- The answer of a peer at position `pi`.
unfoldable pub take_reply : ℕ → ℕ → Bool → ℕ → RaftNode → Outcome RaftNode
take_reply from pi success match_idx n = index n.next_index pi >>= λ next.
    if success
    then (index n.match_index pi >>= λ _. advance_commit_index (record n {
      next_index = set n.next_index pi ((match_idx + 1) % 2 ^ 64);
      match_index = set n.match_index pi match_idx;
    }))
    else send_append_entries
        (if ltb 1 next then record n { next_index = set n.next_index pi (next - 1) } else n) from

-- A granted vote.
unfoldable pub count_vote : RaftNode → RaftNode
count_vote n =
    let m : RaftNode = record n { vote_count = n.vote_count + 1 } in
    if leb (quorum m) m.vote_count then become_leader m else m

-- The `k`-th result of `std::rand` is `rand k`.
module _ (rand : ℕ → ℕ) where
  unfoldable pub step_down : ℕ → RaftNode → RaftNode
  step_down term n =
      if ltb n.current_term term || is_state n.state candidate
      then become_follower rand term n
      else n

  -- `handleAppendEntries` behind the check of the term.
  unfoldable pub accept_entries : ℕ → ℕ → ℕ → ℕ → ℕ → List Bytes → RaftNode → Outcome RaftNode
  unfolding step_down store_or_refuse
  accept_entries from term prev_idx prev_term leader_commit parts n =
      store_or_refuse from term prev_idx prev_term leader_commit parts
        (reset_election_timer rand (step_down term n))

  unfoldable pub handle_append_entries : ℕ → List Bytes → RaftNode → Outcome RaftNode
  unfolding accept_entries
  handle_append_entries from parts n =
      if ltb (length parts) 6
      then ok n
      else (number_at parts 2 >>= λ term. number_at parts 3 >>= λ prev_idx.
          number_at parts 4 >>= λ prev_term. number_at parts 5 >>= λ leader_commit.
          if ltb term n.current_term
          then ok (reply_entries from false 0 n)
          else accept_entries from term prev_idx prev_term leader_commit parts n)

  unfoldable pub handle_append_entries_reply : ℕ → List Bytes → RaftNode → Outcome RaftNode
  unfolding take_reply
  handle_append_entries_reply from parts n =
      if not (is_state n.state leader)
      then ok n
      else if ltb (length parts) 4
      then ok n
      else (number_at parts 2 >>= λ term. part parts 3 >>= λ success.
          number_at parts 4 >>= λ match_idx.
          if ltb n.current_term term
          then ok (become_follower rand term n)
          else if leb (length n.peers) (peer_index n from)
          then ok n
          else take_reply from (peer_index n from) (success =ᵇ codes "1") match_idx n)

  -- The decision on a vote, in the term of the request.
  unfoldable pub decide_vote : ℕ → ℕ → ℕ → RaftNode → RaftNode
  unfolding reply_vote
  decide_vote from cand_last_idx cand_last_term n =
      let log_ok =
        ltb (last_log_term n) cand_last_term
        || cand_last_term == last_log_term n && leb (last_log_index n) cand_last_idx in
      let can_vote : Bool = elim n.voted_for [ none ↦ true | some v ↦ v == from ] in
      if can_vote && log_ok
      then reply_vote from true (reset_election_timer rand (record n { voted_for = some from }))
      else reply_vote from false n

  unfoldable pub handle_request_vote : ℕ → List Bytes → RaftNode → Outcome RaftNode
  unfolding decide_vote
  handle_request_vote from parts n =
      if ltb (length parts) 5
      then ok n
      else (number_at parts 2 >>= λ term. number_at parts 3 >>= λ cand_last_idx.
          number_at parts 4 >>= λ cand_last_term.
          if ltb term n.current_term
          then ok (reply_vote from false n)
          else ok (
              decide_vote from cand_last_idx cand_last_term
                (if ltb n.current_term term then become_follower rand term n else n)))

  unfoldable pub handle_request_vote_reply : List Bytes → RaftNode → Outcome RaftNode
  unfolding count_vote
  handle_request_vote_reply parts n =
      if not (is_state n.state candidate)
      then ok n
      else if ltb (length parts) 4
      then ok n
      else (number_at parts 2 >>= λ term. part parts 3 >>= λ granted.
          if ltb n.current_term term
          then ok (become_follower rand term n)
          else if granted =ᵇ codes "1"
          then ok (count_vote n)
          else ok n)

  abbrev pub dispatch : ℕ → List Bytes → RaftNode → Outcome RaftNode
  dispatch from [] n = ok n
  dispatch from (kind ∷ rest) n =
      if kind =ᵇ codes "RAFT_AE"
      then handle_append_entries from (kind ∷ rest) n
      else if kind =ᵇ codes "RAFT_AER"
      then handle_append_entries_reply from (kind ∷ rest) n
      else if kind =ᵇ codes "RAFT_RV"
      then handle_request_vote from (kind ∷ rest) n
      else if kind =ᵇ codes "RAFT_RVR"
      then handle_request_vote_reply (kind ∷ rest) n
      else ok n

  -- `step`; each handler parses the text again, with the same result.
  unfoldable pub step : ℕ → Bytes → RaftNode → Outcome RaftNode
  unfolding parse_parts
  step from raw n = dispatch from (parse_parts raw) n

  -- `tick`.
  unfoldable pub tick : RaftNode → Outcome RaftNode
  tick n₀ =
      let n : RaftNode = flush_disk n₀ in
      if is_state n.state leader
      then (let beat = n.heartbeat_timer - 1 in
          if leb beat 0
          then send_all n.peers (record n { heartbeat_timer = 50 })
          else ok (record n { heartbeat_timer = beat }))
      else (let left = n.election_timer - 1 in
          if leb left 0
          then ok (send_request_vote (become_candidate rand (record n { election_timer = left })))
          else ok (record n { election_timer = left }))

  -- The constructor, over the log file that it finds. Of the fields that it leaves alone, `file`
  -- stands for the one on disk.
  unfoldable pub construct : ℕ → ℕ → List ℕ → Bytes → Outcome RaftNode
  construct gid self peers file =
      load_from_disk (record {
        current_term = 0;
        voted_for = none;
        log = sentinel ∷ [];
        commit_index = 0;
        last_applied = 0;
        state = follower;
        group_id = gid;
        self_id = self;
        peers = peers;
        next_index = [];
        match_index = [];
        vote_count = 0;
        election_timer = 0;
        heartbeat_timer = 0;
        drawn = 0;
        sent = [];
        disk_buf = [];
        file = file;
      })
      >>= λ n. ok (if is_empty peers then become_leader n else reset_election_timer rand n)

-- `propose` always returns no value.
unfoldable pub propose : Bytes → RaftNode → Outcome RaftNode
propose cmd n =
    if not (is_state n.state leader)
    then ok n
    else (let e : LogEntry = record { term = n.current_term; command = cmd } in
        let m : RaftNode = record n { log = n.log ++ e ∷ [] } in
        let k : RaftNode =
          if is_empty m.peers then record m { commit_index = last_log_index m } else m in
        send_all k.peers (append_to_disk e k))
