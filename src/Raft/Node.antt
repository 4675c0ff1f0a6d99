-- ===== src/Raft/Node.antt =====
-- The state of `RaftNode` and its small methods.
use kvjet.Prelude.{
  ℕ, zero, suc, ◌+◌, ◌-◌, ◌/◌, ◌%◌, ◌^◌, Bool, List, [], ◌∷◌, ◌++◌, Option, none, some, Bytes,
  length, replicate, get_elem?, ltb, leb, ◌==◌, if◌then◌else◌,
}
use kvjet.Prelude.Outcome.{Outcome, ok, index, ◌>>=◌}
use kvjet.Raft.Message.{LogEntry, RaftMessage, encode_append_entries, encode_request_vote}

pub data State : Type 0 where
  follower candidate leader : State

-- The class. `log` has a sentinel at index 0. The timers never stand below 0 behind a method, so
-- that a decrement that stops at 0 decides `<= 0` as the code's does. `drawn` counts the calls of
-- `std::rand`, `sent` holds what went to `sendCb`, and `file` what went to the log file.
pub record RaftNode : Type 0 where
  pub current_term : ℕ
  pub voted_for : Option ℕ
  pub log : List LogEntry
  pub commit_index : ℕ
  pub last_applied : ℕ
  pub state : State
  pub group_id : ℕ
  pub self_id : ℕ
  pub peers : List ℕ
  pub next_index : List ℕ
  pub match_index : List ℕ
  pub vote_count : ℕ
  pub election_timer : ℕ
  pub heartbeat_timer : ℕ
  pub drawn : ℕ
  pub sent : List RaftMessage
  pub disk_buf : Bytes
  pub file : Bytes

abbrev pub sentinel : LogEntry
sentinel = record { term = 0; command = [] }

-- `lastLogIndex`: the log is never empty.
abbrev pub last_log_index : RaftNode → ℕ
last_log_index n = length n.log - 1

abbrev pub last_term : List LogEntry → ℕ
last_term [] = 0
last_term (e ∷ []) = e.term
last_term (e ∷ f ∷ es) = last_term (f ∷ es)

abbrev pub last_log_term : RaftNode → ℕ
last_log_term n = if leb (length n.log) 1 then 0 else last_term n.log

-- `std::find` on the peers: the number of peers, if there is none.
unfoldable pub position : List ℕ → ℕ → ℕ
position [] uuid = 0
position (p ∷ ps) uuid = if p == uuid then 0 else suc (position ps uuid)

abbrev pub peer_index : RaftNode → ℕ → ℕ
peer_index n uuid = position n.peers uuid

abbrev pub send_cb : RaftNode → ℕ → Bytes → RaftNode
send_cb n to text = record n { sent = n.sent ++ record { target = to; payload = text } ∷ [] }

-- The entries from index `i` on.
abbrev pub entries_from : ℕ → List LogEntry → List LogEntry
entries_from zero es = es
entries_from (suc i) [] = []
entries_from (suc i) (e ∷ es) = entries_from i es

abbrev term_at : List LogEntry → ℕ → ℕ
term_at [] i = 0
term_at (e ∷ es) zero = e.term
term_at (e ∷ es) (suc i) = term_at es i

-- `nextIndex[pi] - 1` is a `uint64_t`.
unfoldable pub send_append_entries : RaftNode → ℕ → Outcome RaftNode
unfolding position
send_append_entries n peer =
    let pi = peer_index n peer in
    if leb (length n.peers) pi
    then ok n
    else (index n.next_index pi >>= λ next.
        let prev_idx = (next + 2 ^ 64 - 1) % 2 ^ 64 in
        let prev_term = term_at n.log prev_idx in
        ok (
          send_cb n peer (
            encode_append_entries n.group_id n.current_term prev_idx prev_term n.commit_index
              (entries_from next n.log))))

unfoldable pub send_request_vote_to : List ℕ → RaftNode → RaftNode
send_request_vote_to [] n = n
send_request_vote_to (p ∷ ps) n = send_request_vote_to ps (
    send_cb n p
      (encode_request_vote n.group_id n.current_term (last_log_index n) (last_log_term n)))

unfoldable pub send_request_vote : RaftNode → RaftNode
unfolding send_request_vote_to
send_request_vote n = send_request_vote_to n.peers n

-- The `k`-th result of `std::rand` is `rand k`.
module _ (rand : ℕ → ℕ) where
  unfoldable pub reset_election_timer : RaftNode → RaftNode
  reset_election_timer n = record n {
    election_timer = 150 + rand n.drawn % (300 - 150 + 1);
    drawn = n.drawn + 1;
  }

  unfoldable pub become_follower : ℕ → RaftNode → RaftNode
  unfolding reset_election_timer
  become_follower term n =
      let m : RaftNode =
        reset_election_timer
          (record n { state = follower; current_term = term; voted_for = none }) in
      record m { vote_count = 0 }

  unfoldable pub become_candidate : RaftNode → RaftNode
  unfolding reset_election_timer
  become_candidate n = reset_election_timer (record n {
    state = candidate;
    current_term = (n.current_term + 1) % 2 ^ 64;
    voted_for = some n.self_id;
    vote_count = 1;
  })

unfoldable pub become_leader : RaftNode → RaftNode
become_leader n = record n {
  state = leader;
  next_index = replicate (length n.peers) (last_log_index n + 1);
  match_index = replicate (length n.peers) 0;
  vote_count = 0;
  heartbeat_timer = 0;
}

-- `std::sort` with `std::greater`.
unfoldable pub insert_desc : ℕ → List ℕ → List ℕ
insert_desc x [] = x ∷ []
insert_desc x (y ∷ ys) = if leb y x then x ∷ y ∷ ys else y ∷ insert_desc x ys

unfoldable pub sort_desc : List ℕ → List ℕ
unfolding insert_desc
sort_desc [] = []
sort_desc (x ∷ xs) = insert_desc x (sort_desc xs)

unfoldable pub quorum : RaftNode → ℕ
quorum n = length n.peers / 2 + 1

abbrev commit_at : RaftNode → ℕ → Outcome RaftNode
commit_at n new_commit =
    if ltb n.commit_index new_commit
    then (index n.log new_commit >>= λ e.
        ok (if e.term == n.current_term then record n { commit_index = new_commit } else n))
    else ok n

unfoldable pub advance_commit_index : RaftNode → Outcome RaftNode
unfolding sort_desc quorum
advance_commit_index n =
    let sorted = sort_desc (n.match_index ++ last_log_index n ∷ []) in
    index sorted (quorum n - 1) >>= commit_at n

unfoldable pub has_pending_apply : RaftNode → Bool
has_pending_apply n = ltb n.last_applied n.commit_index

-- The loop of `takePendingApply` makes `commitIndex - lastApplied` rounds.
abbrev pub taken : ℕ → ℕ → List LogEntry → List LogEntry
taken zero applied log = []
taken (suc rounds) applied log = elim (get_elem? log (suc applied)) [
  | none ↦ taken rounds (suc applied) log
  | some e ↦ e ∷ taken rounds (suc applied) log
]

unfoldable pub take_pending_apply : RaftNode → RaftNode × List LogEntry
take_pending_apply n =
    let rounds = n.commit_index - n.last_applied in
    (record n { last_applied = n.last_applied + rounds }, taken rounds n.last_applied n.log)
