-- ===== src/Raft/Handlers/Sound.antt =====
-- A node's ticks and proposals never run out of range.
use kvjet.Prelude.{
  ℕ, ◌-◌, true, not, List, [], ◌∷◌, ◌++◌, ◌≡◌, refl, sym, ap, ◌∙◌, arith, Bytes, length, get_or,
  leb, if◌then◌else◌, length-replicate,
}
use kvjet.Prelude.Outcome.{ok, index, index-get_or, Returns, Returns-if, Returns-then, Ensures}
use kvjet.Raft.Message.{LogEntry}
use kvjet.Raft.Node.{
  RaftNode, send_request_vote, send_request_vote_to, become_candidate, leader, peer_index,
  send_append_entries, last_log_index, become_leader, reset_election_timer,
}
use kvjet.Raft.Disk.{flush_disk, append_to_disk, load_from_disk}
use kvjet.Raft.Handlers.{construct, tick, propose, send_all, is_state, is_empty}
use kvjet.Raft.Handlers.Progress.{VotesForSelf, IsIndexed}
use kvjet.Raft.Handlers.Votes.{Run, TermsFit, Run-Progress}

-- A node that has sent: only its messages are more.
pub record HasSent (n m : RaftNode) : Type 0 where
  pub log : m.log ≡ n.log
  pub peers : m.peers ≡ n.peers
  pub next : m.next_index ≡ n.next_index
  pub term : m.current_term ≡ n.current_term

HasSent-trans : {n m k : RaftNode} → HasSent n m → HasSent m k → HasSent n k
HasSent-trans a b = record {
  log = b.log ∙ a.log;
  peers = b.peers ∙ a.peers;
  next = b.next ∙ a.next;
  term = b.term ∙ a.term;
}

send_append_entries-HasSent :
    (n : RaftNode) (p : ℕ)
    → length n.next_index ≡ length n.peers
    → Returns (send_append_entries n p) (HasSent n)
unfolding send_append_entries
send_append_entries-HasSent n p h =
    Returns-if (HasSent n) (leb (length n.peers) (peer_index n p)) _ _
      (λ _. (n, refl, record { log = refl; peers = refl; next = refl; term = refl }))
      (λ inside.
        Returns-then (HasSent n) (index n.next_index (peer_index n p)) _
          (get_or n.next_index (peer_index n p) 0)
          (index-get_or n.next_index (peer_index n p) 0 (ground (arith, h, inside)))
          (record { log = refl; peers = refl; next = refl; term = refl }))

send_all-HasSent :
    (ps : List ℕ) (n : RaftNode)
    → length n.next_index ≡ length n.peers
    → Returns (send_all ps n) (HasSent n)
unfolding send_all
send_all-HasSent [] n h = (n, refl, record { log = refl; peers = refl; next = refl; term = refl })
send_all-HasSent (p ∷ ps) n h =
    let (m, first, sent) = send_append_entries-HasSent n p h in
    let (k, rest, more) =
      send_all-HasSent ps m (ap length sent.next ∙ h ∙ ap length (sym sent.peers)) in
    (k, rw first rest, HasSent-trans sent more)

-- What a node does with a command.
abbrev pub Proposed : Bytes → RaftNode → RaftNode → Type 0
Proposed cmd n m = m.log ≡ (
    if is_state n.state leader
    then n.log ++ (record { term = n.current_term; command = cmd }) ∷ []
    else n.log)

send_request_vote_to-log : (ps : List ℕ) (n : RaftNode) → (send_request_vote_to ps n).log ≡ n.log
unfolding send_request_vote_to
send_request_vote_to-log [] n = refl
send_request_vote_to-log (p ∷ ps) n = send_request_vote_to-log ps _

asking-log :
    (rand : ℕ → ℕ) (n : RaftNode) → (send_request_vote (become_candidate rand n)).log ≡ n.log
unfolding send_request_vote become_candidate
asking-log rand n = send_request_vote_to-log n.peers _

tick-Returns :
    (rand : ℕ → ℕ) (n : RaftNode) → IsIndexed n → Returns (tick rand n) (λ m. m.log ≡ n.log)
unfolding tick flush_disk
tick-Returns rand n h =
    let P : RaftNode → Type 0 = λ m. m.log ≡ n.log in
    let k : RaftNode = flush_disk n in
    Returns-if P (is_state k.state leader) _ _
      (λ leads.
        Returns-if P (leb (k.heartbeat_timer - 1) 0) _ _
          (λ _.
            let beaten : RaftNode = record k { heartbeat_timer = 50 } in
            let (m, run, sent) = send_all-HasSent k.peers beaten (h (ground (arith, leads))).0 in
            (m, run, sent.log))
          (λ _. (_, refl, refl)))
      (λ _.
        Returns-if P (leb (k.election_timer - 1) 0) _ _
          (λ _. (_, refl, asking-log rand (record k { election_timer = k.election_timer - 1 })))
          (λ _. (_, refl, refl)))

send_all-Proposed :
    (cmd : Bytes) (n : RaftNode) (ps : List ℕ) (k : RaftNode)
    → length k.next_index ≡ length k.peers
    → is_state n.state leader ≡ true
    → k.log ≡ n.log ++ (record { term = n.current_term; command = cmd }) ∷ []
    → Returns (send_all ps k) (Proposed cmd n)
send_all-Proposed cmd n ps k h leads logged =
    let (r, run, sent) = send_all-HasSent ps k h in (r, run, rw leads (sent.log ∙ logged))

pub propose-Returns :
    (cmd : Bytes) (n : RaftNode) → IsIndexed n → Returns (propose cmd n) (Proposed cmd n)
unfolding propose append_to_disk
propose-Returns cmd n h =
    let e : LogEntry = record { term = n.current_term; command = cmd } in
    let m : RaftNode = record n { log = n.log ++ e ∷ [] } in
    let k : RaftNode =
      if is_empty m.peers then record m { commit_index = last_log_index m } else m in
    Returns-if (Proposed cmd n) (not (is_state n.state leader)) _ _
      (λ idle. (n, refl, ground (arith, idle)))
      (λ leads.
        send_all-Proposed cmd n k.peers (append_to_disk e k) (ground (arith, h, leads))
          (ground (arith, leads)) (ground arith))

construct-Sound :
    (rand : ℕ → ℕ) (gid self : ℕ) (peers : List ℕ) (file : Bytes)
    → Ensures (λ n. VotesForSelf n × IsIndexed n) (construct rand gid self peers file)
unfolding construct load_from_disk reset_election_timer become_leader
construct-Sound rand gid self peers file n run =
    (λ e. ground arith, λ e. ground (arith, length-replicate {A = ℕ} (length peers)))

-- A node that was set up over any log file, whatever texts it has received since and whatever it has
-- been asked, handles every tick and every command, as long as no term of its run wraps around. A
-- tick leaves its log alone; a command is appended with the current term if the node leads and is
-- ignored if it does not.
pub Run-returns :
    (rand : ℕ → ℕ) (gid self : ℕ) (peers : List ℕ) (file : Bytes) {n m : RaftNode} (cmd : Bytes)
    (run : Run rand n m)
    → construct rand gid self peers file ≡ ok n
    → TermsFit run
    → Returns (tick rand m) (λ k. k.log ≡ m.log) × Returns (propose cmd m) (Proposed cmd m)
Run-returns rand gid self peers file cmd run start fit =
    let (votes, indexed) = construct-Sound rand gid self peers file _ start in
    let still = (Run-Progress run votes fit).indexed indexed in
    (tick-Returns _ _ still, propose-Returns cmd _ still)
