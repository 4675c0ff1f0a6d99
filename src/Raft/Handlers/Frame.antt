-- ===== src/Raft/Handlers/Frame.antt =====
-- Which methods leave the role of a node alone: its state, term, vote, identity, peers, and how many
-- indices it keeps of them.
use kvjet.Prelude.{
  not, ◌&&◌, ℕ, ◌+◌, List, [], ◌∷◌, ◌≡◌, refl, Bytes, arith, Bool, true, false, ◌∙◌, take, length,
  ltb, length-set, ◌-◌, ◌%◌, ◌^◌, inl, inr, Bool-cases, if◌then◌else◌,
}
use kvjet.Prelude.Outcome.{index, Outcome, Ensures, Ensures-ok, Ensures-if, Ensures-bind}
use kvjet.Raft.Message.{LogEntry, encode_request_vote}
use kvjet.Raft.Node.{
  RaftNode, send_append_entries, send_request_vote, send_request_vote_to, reset_election_timer,
  advance_commit_index, send_cb, last_log_index, last_log_term,
}
use kvjet.Raft.Disk.{append_to_disk, flush_disk, rewrite_disk}
use kvjet.Raft.Handlers.{
  append_entry, append_commands, store_entries, reply_entries, send_all, take_reply, commit_up_to,
  store_or_refuse, has_term, skip, number_at,
}

pub record SameRole (n m : RaftNode) : Type 0 where
  pub state : m.state ≡ n.state
  pub term : m.current_term ≡ n.current_term
  pub vote : m.voted_for ≡ n.voted_for
  pub self : m.self_id ≡ n.self_id
  pub peers : m.peers ≡ n.peers
  pub next : length m.next_index ≡ length n.next_index
  pub matched : length m.match_index ≡ length n.match_index

pub SameRole-refl : (n : RaftNode) → SameRole n n
SameRole-refl n = record {
  state = refl;
  term = refl;
  vote = refl;
  self = refl;
  peers = refl;
  next = refl;
  matched = refl;
}

pub SameRole-trans : {n m k : RaftNode} → SameRole n m → SameRole m k → SameRole n k
SameRole-trans a b = record {
  state = b.state ∙ a.state;
  term = b.term ∙ a.term;
  vote = b.vote ∙ a.vote;
  self = b.self ∙ a.self;
  peers = b.peers ∙ a.peers;
  next = b.next ∙ a.next;
  matched = b.matched ∙ a.matched;
}

-- If the call returns, the role is the same.
abbrev pub SameIfOk : RaftNode → Outcome RaftNode → Type 0
SameIfOk n = Ensures (SameRole n)

send_cb-same : (n : RaftNode) (p : ℕ) (text : Bytes) → SameRole n (send_cb n p text)
send_cb-same n p text = ground arith

pub append_to_disk-same : (e : LogEntry) (n : RaftNode) → SameRole n (append_to_disk e n)
unfolding append_to_disk
append_to_disk-same e n = ground arith

pub flush_disk-same : (n : RaftNode) → SameRole n (flush_disk n)
unfolding flush_disk
flush_disk-same n = ground arith

rewrite_disk-same : (n : RaftNode) → SameRole n (rewrite_disk n)
unfolding rewrite_disk
rewrite_disk-same n = ground arith

pub reset_election_timer-same :
    (rand : ℕ → ℕ) (n : RaftNode) → SameRole n (reset_election_timer rand n)
unfolding reset_election_timer
reset_election_timer-same rand n = ground arith

send_request_vote_to-same : (ps : List ℕ) (n : RaftNode) → SameRole n (send_request_vote_to ps n)
unfolding send_request_vote_to
send_request_vote_to-same [] n = SameRole-refl n
send_request_vote_to-same (p ∷ ps) n =
    let text = encode_request_vote n.group_id n.current_term (last_log_index n) (last_log_term n) in
    SameRole-trans (send_cb-same n p text) (send_request_vote_to-same ps (send_cb n p text))

pub send_request_vote-same : (n : RaftNode) → SameRole n (send_request_vote n)
unfolding send_request_vote
send_request_vote-same n = send_request_vote_to-same n.peers n

pub send_append_entries-same : (n : RaftNode) (p : ℕ) → SameIfOk n (send_append_entries n p)
unfolding send_append_entries
send_append_entries-same n p m h = ground arith

append_entry-same :
    (term idx : ℕ) (cmd : Bytes) (n : RaftNode) (b : Bool)
    → SameRole n (append_entry term idx cmd (n, b)).0
unfolding append_entry append_to_disk
append_entry-same term idx cmd n b = ground arith

append_commands-same :
    (term idx : ℕ) (cmds : List Bytes) (n : RaftNode) (b : Bool)
    → SameRole n (append_commands term idx cmds (n, b)).0
unfolding append_commands
append_commands-same term idx [] n b = SameRole-refl n
append_commands-same term idx (cmd ∷ cmds) n b =
    let (m, c) = append_entry term idx cmd (n, b) in
    SameRole-trans (append_entry-same term idx cmd n b)
      (append_commands-same term (idx + 1) cmds m c)

pub send_all-same : (ps : List ℕ) (n : RaftNode) → SameIfOk n (send_all ps n)
unfolding send_all
send_all-same [] n = Ensures-ok (SameRole n) n (SameRole-refl n)
send_all-same (p ∷ ps) n =
    Ensures-bind (SameRole n) (send_append_entries n p) (send_all ps)
      λ k sent m h. SameRole-trans (send_append_entries-same n p k sent) (send_all-same ps k m h)

if_rewrite-same :
    (b : Bool) (n m : RaftNode) → SameRole n m → SameRole n (if b then rewrite_disk m else m)
if_rewrite-same true n m h = SameRole-trans h (rewrite_disk-same m)
if_rewrite-same false n m h = h

pub store_entries-same :
    (term prev_idx : ℕ) (parts : List Bytes) (n : RaftNode)
    → SameIfOk n (store_entries term prev_idx parts n)
unfolding store_entries
store_entries-same term prev_idx parts n =
    Ensures-if (SameRole n) (ltb 6 (length parts)) _ _
      (λ _. Ensures-bind (SameRole n) (number_at parts 6) _ λ count _.
        let cmds = take count (skip 7 parts) in
        Ensures-ok (SameRole n) _
          (if_rewrite-same _ n _ (append_commands-same term (prev_idx + 1) cmds n false)))
      (λ _. Ensures-ok (SameRole n) n (SameRole-refl n))

advance_commit_index-same : (n : RaftNode) → SameIfOk n (advance_commit_index n)
unfolding advance_commit_index
advance_commit_index-same n m h = ground arith

pub take_reply-same :
    (from pi : ℕ) (success : Bool) (match_idx : ℕ) (n : RaftNode)
    → SameIfOk n (take_reply from pi success match_idx n)
unfolding take_reply
take_reply-same from pi success match_idx n =
    Ensures-bind (SameRole n) (index n.next_index pi) _ λ next _.
      Ensures-if (SameRole n) success _ _
        (λ _. Ensures-bind (SameRole n) (index n.match_index pi) _ λ _ _ m h.
          SameRole-trans
            (ground (
              arith,
              length-set n.next_index pi ((match_idx + 1) % 2 ^ 64),
              length-set n.match_index pi match_idx,
            ))
            (advance_commit_index-same _ m h))
        (λ _ m h.
          SameRole-trans (ground (arith, length-set n.next_index pi (next - 1)))
            (send_append_entries-same _ from m h))

commit_up_to-same : (leader_commit : ℕ) (n : RaftNode) → SameRole n (commit_up_to leader_commit n)
commit_up_to-same leader_commit n = ground arith

pub reply_entries-same :
    (to : ℕ) (success : Bool) (idx : ℕ) (n : RaftNode) → SameRole n (reply_entries to success idx n)
unfolding reply_entries
reply_entries-same to success idx n = ground arith

pub store_or_refuse-same :
    (from term prev_idx prev_term leader_commit : ℕ) (parts : List Bytes) (n : RaftNode)
    → SameIfOk n (store_or_refuse from term prev_idx prev_term leader_commit parts n)
unfolding store_or_refuse
store_or_refuse-same from term prev_idx prev_term leader_commit parts n =
    let consistent = ltb 0 prev_idx && not (has_term n.log prev_idx prev_term) in
    elim (Bool-cases consistent) [
      | inl e ↦ rw e (
          Ensures-ok (SameRole n) (reply_entries from false 0 n)
            (reply_entries-same from false 0 n))
      | inr e ↦ rw e (
          Ensures-bind (SameRole n) (store_entries term prev_idx parts n) _ λ k stored.
            let done = commit_up_to leader_commit k in
            let replied = reply_entries from true (last_log_index done) done in
            Ensures-ok (SameRole n) replied (
              SameRole-trans (store_entries-same term prev_idx parts n k stored) (
                SameRole-trans (commit_up_to-same leader_commit k)
                  (reply_entries-same from true (last_log_index done) done))))
    ]
