-- ===== src/Server/Locks.antt =====
-- server/Server: `epoll_step` holds the lock of the message queue until it ends, and calls back while
-- it does.
use kvjet.Prelude.{
  ℕ, ◌-◌, ◌≤◌, true, false, List, [], ◌∷◌, ◌++◌, none, some, ◌==◌, ◌≡◌, ◌≢◌, refl, sym, ◌∙◌, ap,
  arith, append_assoc, append-nil, Bool-cases, inl, inr, ==_iff,
}
use kvjet.Prelude.Assoc.{find, insert}
use kvjet.Prelude.Outcome.{Outcome, ok, undefined, ◌>>=◌}
use kvjet.Resp.Value.{Value}
use kvjet.Raft.Message.{RaftMessage, encode_request_vote}
use kvjet.Raft.Node.{
  RaftNode, leader, last_log_index, last_log_term, send_cb, send_request_vote, send_request_vote_to,
  become_candidate,
}
use kvjet.Raft.Disk.{flush_disk}
use kvjet.Raft.Handlers.{tick, is_state}
use kvjet.Cluster.{no_fd, get_connection, contains}
use kvjet.Server.{Server}
use kvjet.Server.Apply.{send_locked, apply_group, tick_groups}

-- A message to a node with a connection is not sent.
send_locked-connected :
    (xs ys : List RaftMessage) (msg : RaftMessage) (s : Server)
    → get_connection msg.target s.cluster ≢ no_fd
    → send_locked (xs ++ msg ∷ ys) s ≡ undefined
unfolding send_locked
send_locked-connected [] ys msg s h = ground (arith, h)
send_locked-connected (x ∷ xs) ys msg s h = ground (arith, send_locked-connected xs ys msg s h)

sent-send_request_vote_to :
    (ps : List ℕ) (n : RaftNode)
    → (ys : List RaftMessage) × ((send_request_vote_to ps n).sent ≡ n.sent ++ ys)
unfolding send_request_vote_to
sent-send_request_vote_to [] n = ([], sym (append-nil n.sent))
sent-send_request_vote_to (p ∷ ps) n =
    let text = encode_request_vote n.group_id n.current_term (last_log_index n) (last_log_term n) in
    let msg : RaftMessage = record { target = p; payload = text } in
    let (ys, e) = sent-send_request_vote_to ps (send_cb n p text) in
    (msg ∷ ys, e ∙ append_assoc n.sent (msg ∷ []) ys)

vote_requests-undefined :
    (p : ℕ) (ps : List ℕ) (n : RaftNode) (s : Server)
    → contains p ps ≡ true
    → get_connection p s.cluster ≢ no_fd
    → send_locked (send_request_vote_to ps n).sent s ≡ undefined
unfolding send_request_vote_to
vote_requests-undefined p [] n s h linked = ground arith
vote_requests-undefined p (q ∷ ps) n s h linked =
    let text = encode_request_vote n.group_id n.current_term (last_log_index n) (last_log_term n) in
    let msg : RaftMessage = record { target = q; payload = text } in
    elim (Bool-cases (p == q)) [
      | inl same ↦
          let (ys, e) = sent-send_request_vote_to ps (send_cb n q text) in
          ap (λ ms. send_locked ms s) (e ∙ append_assoc n.sent (msg ∷ []) ys)
          ∙ send_locked-connected n.sent ys msg s (λ none_there.
            linked (ap (λ x. get_connection x s.cluster) ((==_iff p q).0 same) ∙ none_there))
      | inr other ↦ vote_requests-undefined p ps (send_cb n q text) s (rw other at h) linked
    ]

-- The state in which a node asks for votes.
abbrev asking : (ℕ → ℕ) → RaftNode → RaftNode
asking rand n =
    let k : RaftNode = flush_disk n in become_candidate rand (record k { election_timer = 0 })

asking-peers : (rand : ℕ → ℕ) (n : RaftNode) → (asking rand n).peers ≡ n.peers
unfolding become_candidate flush_disk
asking-peers rand n = refl

tick-expired :
    (rand : ℕ → ℕ) (n : RaftNode)
    → n.state ≢ leader
    → n.election_timer ≤ 1
    → tick rand n ≡ ok (send_request_vote_to n.peers (asking rand n))
unfolding tick flush_disk send_request_vote become_candidate
tick-expired rand n h late =
    let not_leading : is_state n.state leader ≡ false = ground (arith, h) in
    let zero_left : n.election_timer - 1 ≡ 0 = omega arith in rw (not_leading, zero_left) refl

-- When the election timer of a group runs out and one of its peers has a connection, the tick asks
-- that peer for its vote and so locks the mutex that the event loop already holds: the step of the
-- loop is undefined behaviour, whatever the other groups are.
pub tick_groups-relocks :
    (dflt : Value) (rand : ℕ → ℕ) (gid p : ℕ) (gids : List ℕ) (n : RaftNode) (s : Server)
    → find gid s.raft_groups ≡ some n
    → n.state ≢ leader
    → n.election_timer ≤ 1
    → contains p n.peers ≡ true
    → get_connection p s.cluster ≢ no_fd
    → tick_groups dflt rand (gid ∷ gids) s ≡ undefined
unfolding tick_groups
tick_groups-relocks dflt rand gid p gids n s found idle late peer linked =
    ap (λ m. m >>= apply_group dflt gid >>= tick_groups dflt rand gids)
      (ap (λ o. elim o [ none ↦ ok s | some k ↦ tick rand k >>= sends ]) found
        ∙ ap (λ m. m >>= sends) (tick-expired rand n idle late)
        ∙ vote_requests-undefined p n.peers (asking rand n) _ peer linked)
  where
    sends : RaftNode → Outcome Server
    sends m =
        send_locked m.sent
          (record s { raft_groups = insert gid (record m { sent = [] }) s.raft_groups })
