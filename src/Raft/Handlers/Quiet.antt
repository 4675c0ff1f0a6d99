-- ===== src/Raft/Handlers/Quiet.antt =====
-- Every handler moves a node on, and only an answer to a vote request makes a leader.
use kvjet.Prelude.{
  ℕ, ◌+◌, ◌-◌, ◌≤◌, ◌<◌, ◌^◌, List, [], ◌∷◌, ◌++◌, ◌≢◌, ap, Bytes, codes, arith, Bool, false, not,
  ◌∙◌, length, length-replicate, ltb, leb, ◌=ᵇ◌, inl, inr, Bool-cases, if◌then◌else◌, ltb→lt, =ᵇ→eq,
}
use kvjet.Prelude.Outcome.{ok, Ensures, Ensures-ok, Ensures-if, Ensures-bind}
use kvjet.Raft.Message.{LogEntry, part}
use kvjet.Raft.Node.{
  candidate, leader, RaftNode, become_follower, become_candidate, become_leader, last_log_index,
  peer_index, reset_election_timer, send_request_vote,
}
use kvjet.Raft.Disk.{flush_disk, append_to_disk}
use kvjet.Raft.Handlers.{
  is_empty, step_down, is_state, number_at, accept_entries, handle_append_entries,
  handle_append_entries_reply, decide_vote, handle_request_vote, count_vote,
  handle_request_vote_reply, reply_entries, reply_vote, tick, propose,
}
use kvjet.Raft.Handlers.Frame.{
  SameRole, SameRole-refl, SameRole-trans, reset_election_timer-same, send_request_vote-same,
  send_all-same, take_reply-same, reply_entries-same, store_or_refuse-same, append_to_disk-same,
}
use kvjet.Raft.Handlers.Progress.{
  VotesForSelf, Progress, Quiet, same-Quiet, Quiet-trans, become_follower-Quiet,
  become_candidate-Quiet, decide_vote-Quiet, step_down-Quiet,
}

module _ (rand : ℕ → ℕ) where
  accept_entries-Quiet :
      (from term prev_idx prev_term leader_commit : ℕ) (parts : List Bytes) (n : RaftNode)
      → VotesForSelf n
      → n.current_term ≤ term
      → Ensures (Quiet n) (accept_entries rand from term prev_idx prev_term leader_commit parts n)
  unfolding accept_entries
  accept_entries-Quiet from term prev_idx prev_term leader_commit parts n v h m run =
      let down = step_down rand term n in
      let first = step_down-Quiet rand term n v h in
      let same = SameRole-trans (reset_election_timer-same rand down) (
        store_or_refuse-same from term prev_idx prev_term leader_commit parts
          (reset_election_timer rand down) m run) in
      Quiet-trans first (same-Quiet first.progress.own same)

  pub handle_append_entries-Quiet :
      (from : ℕ) (parts : List Bytes) (n : RaftNode)
      → VotesForSelf n
      → Ensures (Quiet n) (handle_append_entries rand from parts n)
  unfolding handle_append_entries
  handle_append_entries-Quiet from parts n v = elim (Bool-cases (ltb (length parts) 6)) [
    | inl short ↦ rw short (Ensures-ok (Quiet n) n (same-Quiet v (SameRole-refl n)))
    | inr e ↦ rw e (
        Ensures-bind (Quiet n) (number_at parts 2) _ λ term _.
          Ensures-bind (Quiet n) (number_at parts 3) _ λ prev_idx _.
            Ensures-bind (Quiet n) (number_at parts 4) _ λ prev_term _.
              Ensures-bind (Quiet n) (number_at parts 5) _ λ leader_commit _.
                elim (Bool-cases (ltb term n.current_term)) [
                  | inl old ↦ rw old (
                      Ensures-ok (Quiet n) (reply_entries from false 0 n)
                        (same-Quiet v (reply_entries-same from false 0 n)))
                  | inr new ↦ rw new (
                      accept_entries-Quiet from term prev_idx prev_term leader_commit parts n v
                        (ground arith))
                ])
  ]

  pub handle_append_entries_reply-Quiet :
      (from : ℕ) (parts : List Bytes) (n : RaftNode)
      → VotesForSelf n
      → Ensures (Quiet n) (handle_append_entries_reply rand from parts n)
  unfolding handle_append_entries_reply
  handle_append_entries_reply-Quiet from parts n v =
      let stay : Ensures (Quiet n) (ok n) =
        Ensures-ok (Quiet n) n (same-Quiet v (SameRole-refl n)) in
      Ensures-if (Quiet n) (not (is_state n.state leader)) _ _ (λ _. stay)
        λ _.
          Ensures-if (Quiet n) (ltb (length parts) 4) _ _ (λ _. stay)
            λ _. Ensures-bind (Quiet n) (number_at parts 2) _ λ term _.
              Ensures-bind (Quiet n) (part parts 3) _ λ success _.
                Ensures-bind (Quiet n) (number_at parts 4) _ λ match_idx _.
                  Ensures-if (Quiet n) (ltb n.current_term term) _ _
                    (λ later.
                      Ensures-ok (Quiet n) (become_follower rand term n)
                        (become_follower-Quiet rand term n (ltb→lt _ _ later)))
                    λ _.
                      Ensures-if (Quiet n) (leb (length n.peers) (peer_index n from)) _ _
                        (λ _. stay)
                        λ _ m run. same-Quiet v (
                          take_reply-same from (peer_index n from) (success =ᵇ codes "1") match_idx
                            n m run)

  reply_vote-same : (to : ℕ) (granted : Bool) (n : RaftNode) → SameRole n (reply_vote to granted n)
  unfolding reply_vote
  reply_vote-same to granted n = ground arith

  later-Quiet :
      (term : ℕ) (n : RaftNode)
      → VotesForSelf n
      → Quiet n (if ltb n.current_term term then become_follower rand term n else n)
  later-Quiet term n v = elim (Bool-cases (ltb n.current_term term)) [
    | inl later ↦ rw later (become_follower-Quiet rand term n (ltb→lt _ _ later))
    | inr e ↦ rw e (same-Quiet v (SameRole-refl n))
  ]

  pub handle_request_vote-Quiet :
      (from : ℕ) (parts : List Bytes) (n : RaftNode)
      → VotesForSelf n
      → Ensures (Quiet n) (handle_request_vote rand from parts n)
  unfolding handle_request_vote
  handle_request_vote-Quiet from parts n v =
      Ensures-if (Quiet n) (ltb (length parts) 5) _ _
        (λ _. Ensures-ok (Quiet n) n (same-Quiet v (SameRole-refl n)))
        λ _. Ensures-bind (Quiet n) (number_at parts 2) _ λ term _.
          Ensures-bind (Quiet n) (number_at parts 3) _ λ idx _.
            Ensures-bind (Quiet n) (number_at parts 4) _ λ last _.
              Ensures-if (Quiet n) (ltb term n.current_term) _ _
                (λ _.
                  Ensures-ok (Quiet n) (reply_vote from false n)
                    (same-Quiet v (reply_vote-same from false n)))
                λ _.
                  let k : RaftNode =
                    if ltb n.current_term term then become_follower rand term n else n in
                  let first = later-Quiet term n v in
                  Ensures-ok (Quiet n) (decide_vote rand from idx last k)
                    (Quiet-trans first (decide_vote-Quiet rand from idx last k first.progress.own))

  count_vote-Progress : (n : RaftNode) → VotesForSelf n → Progress n (count_vote n)
  unfolding count_vote become_leader
  count_vote-Progress n v = record {
    term = ground arith;
    self = ground arith;
    peers = ground arith;
    vote = λ w same voted other. ground arith;
    own = λ e. ground (arith, v);
    indexed = λ i e. ground (
      arith,
      i,
      length-replicate {A = ℕ} (length n.peers) (last_log_index n + 1),
      length-replicate {A = ℕ} (length n.peers) 0,
    );
  }

  -- An answer to a vote request makes a leader only if its flag is `1`.
  pub handle_request_vote_reply-Progress :
      (parts : List Bytes) (n : RaftNode)
      → VotesForSelf n
      → Ensures
          (λ m. Progress n m × (part parts 3 ≢ ok (codes "1") → Quiet n m))
          (handle_request_vote_reply rand parts n)
  unfolding handle_request_vote_reply
  handle_request_vote_reply-Progress parts n v =
      let Q : RaftNode → Type 0 = λ m. Progress n m × (part parts 3 ≢ ok (codes "1") → Quiet n m) in
      let quiet : (m : RaftNode) → Quiet n m → Ensures Q (ok m) =
        λ m q. Ensures-ok Q m (q.progress, λ _. q) in
      let stay = quiet n (same-Quiet v (SameRole-refl n)) in
      Ensures-if Q (not (is_state n.state candidate)) _ _ (λ _. stay)
        λ _.
          Ensures-if Q (ltb (length parts) 4) _ _ (λ _. stay)
            λ _. Ensures-bind Q (number_at parts 2) _ λ term _.
              Ensures-bind Q (part parts 3) _ λ granted flag.
                Ensures-if Q (ltb n.current_term term) _ _
                  (λ later. quiet _ (become_follower-Quiet rand term n (ltb→lt _ _ later)))
                  λ _.
                    Ensures-if Q (granted =ᵇ codes "1") _ _
                      (λ yes_vote. Ensures-ok Q (count_vote n) (
                        count_vote-Progress n v,
                        λ other. absurd (other (flag ∙ ap ok (=ᵇ→eq granted (codes "1") yes_vote))),
                      ))
                      (λ _. stay)

  pub tick-Quiet :
      (n : RaftNode)
      → VotesForSelf n
      → n.current_term + 1 < 2 ^ 64
      → Ensures (Quiet n) (tick rand n)
  unfolding tick flush_disk
  tick-Quiet n v h =
      let k : RaftNode = flush_disk n in
      let beat = k.heartbeat_timer - 1 in
      let left = k.election_timer - 1 in
      let beaten : RaftNode = record k { heartbeat_timer = 50 } in
      let waited : RaftNode = record k { election_timer = left } in
      let timed : SameRole n waited = ground arith in
      Ensures-if (Quiet n) (is_state k.state leader) _ _
        (λ _.
          Ensures-if (Quiet n) (leb beat 0) _ _
            (λ _ m run.
              same-Quiet v (SameRole-trans (ground arith) (send_all-same k.peers beaten m run)))
            (λ _.
              Ensures-ok (Quiet n) (record k { heartbeat_timer = beat })
                (same-Quiet v (ground arith))))
        (λ _.
          Ensures-if (Quiet n) (leb left 0) _ _
            (λ _.
              let asked = become_candidate rand waited in
              let first =
                Quiet-trans (same-Quiet v timed)
                  (become_candidate-Quiet rand waited (omega arith)) in
              Ensures-ok (Quiet n) (send_request_vote asked)
                (Quiet-trans first (same-Quiet first.progress.own (send_request_vote-same asked))))
            (λ _. Ensures-ok (Quiet n) waited (same-Quiet v timed)))

  pub propose-Quiet :
      (cmd : Bytes) (n : RaftNode) → VotesForSelf n → Ensures (Quiet n) (propose cmd n)
  unfolding propose
  propose-Quiet cmd n v =
      let e : LogEntry = record { term = n.current_term; command = cmd } in
      let m : RaftNode = record n { log = n.log ++ e ∷ [] } in
      let k : RaftNode =
        if is_empty m.peers then record m { commit_index = last_log_index m } else m in
      Ensures-if (Quiet n) (not (is_state n.state leader)) _ _
        (λ _. Ensures-ok (Quiet n) n (same-Quiet v (SameRole-refl n)))
        λ _ a run. same-Quiet v (
          SameRole-trans (ground arith) (
            SameRole-trans (append_to_disk-same e k)
              (send_all-same k.peers (append_to_disk e k) a run)))
