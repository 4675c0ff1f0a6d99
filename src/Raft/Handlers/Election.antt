-- ===== src/Raft/Handlers/Election.antt =====
-- Elections among nodes that run this code.
use kvjet.Prelude.{
  length, All, ℕ, ◌+◌, ◌<◌, ◌^◌, List, [], ◌∷◌, ◌++◌, ◌≡◌, ◌≢◌, Bytes, codes, Bool, true, false,
  arith, ◌∙◌, sym,
}
use kvjet.Prelude.Decimal.{IsLine, to_string-IsLine, to_string}
use kvjet.Prelude.Outcome.{Outcome, ok, Ensures}
use kvjet.Raft.Message.{
  LogEntry, part, parse_parts, lines, head, flag, commands, encode_append_entries,
  encode_append_entries_reply, encode_request_vote, encode_request_vote_reply,
}
use kvjet.Raft.Message.Parse.{parse_parts-head, parse_from-line, parse_parts-lines, flag-IsLine}
use kvjet.Raft.Node.{RaftNode, leader, reset_election_timer}
use kvjet.Raft.Disk.{load_from_disk}
use kvjet.Raft.Handlers.{construct, step, tick, propose}
use kvjet.Raft.Handlers.Progress.{VotesForSelf, Quiet}
use kvjet.Raft.Handlers.Quiet.{tick-Quiet, propose-Quiet}
use kvjet.Raft.Handlers.Step.{GrantsNothing, step-Stepped}

-- The messages that a node sends, and their text.
pub data Message : Type 0 where
  entries : ℕ → ℕ → ℕ → ℕ → ℕ → List LogEntry → Message
  entries_reply : ℕ → ℕ → Bool → ℕ → Message
  vote : ℕ → ℕ → ℕ → ℕ → Message
  vote_reply : ℕ → ℕ → Bool → Message

abbrev pub text : Message → Bytes
text (entries gid term prev_idx prev_term commit es) =
    encode_append_entries gid term prev_idx prev_term commit es
text (entries_reply gid term success idx) = encode_append_entries_reply gid term success idx
text (vote gid term idx last) = encode_request_vote gid term idx last
text (vote_reply gid term granted) = encode_request_vote_reply gid term granted

-- What can happen to a node: a tick, a message of another node, a command of a client.
pub data Event : Type 0 where
  ticks : Event
  receives : ℕ → Message → Event
  proposes : Bytes → Event

abbrev pub react : (ℕ → ℕ) → Event → RaftNode → Outcome RaftNode
react rand ticks n = tick rand n
react rand (receives from m) n = step rand from (text m) n
react rand (proposes cmd) n = propose cmd n

-- The parts of a text that begins with the line `l`.
first_part :
    (k : ℕ) (l : Bytes) (ls : List Bytes)
    → IsLine l
    → part (parse_parts (head k ++ lines (l ∷ ls))) 0 ≡ ok l
first_part k l ls h = rw (parse_parts-head, parse_from-line l (lines ls) h)

other-GrantsNothing :
    (k : ℕ) (l : Bytes) (ls : List Bytes)
    → IsLine l
    → codes "RAFT_RVR" ≢ l
    → GrantsNothing (parse_parts (head k ++ lines (l ∷ ls)))
other-GrantsNothing k l ls h other e = absurd (other (cc (sym e ∙ first_part k l ls h)))

-- The flag of a reply is parsed with the `+` that is printed before it.
flag-ne-one : (b : Bool) → flag b ≢ codes "1"
flag-ne-one true = ground arith
flag-ne-one false = ground arith

text-GrantsNothing : (m : Message) → GrantsNothing (parse_parts (text m))
unfolding encode_append_entries encode_append_entries_reply encode_request_vote
    encode_request_vote_reply
text-GrantsNothing (entries gid term prev_idx prev_term commit es) =
    other-GrantsNothing _ (codes "RAFT_AE")
      (to_string gid
        ∷ to_string term
        ∷ to_string prev_idx
        ∷ to_string prev_term
        ∷ to_string commit
        ∷ to_string (length es)
        ∷ commands es)
      (omega arith) (ground arith)
text-GrantsNothing (entries_reply gid term success idx) =
    other-GrantsNothing _ (codes "RAFT_AER")
      (to_string gid ∷ to_string term ∷ flag success ∷ to_string idx ∷ []) (omega arith)
      (ground arith)
text-GrantsNothing (vote gid term idx last) =
    other-GrantsNothing _ (codes "RAFT_RV")
      (to_string gid ∷ to_string term ∷ to_string idx ∷ to_string last ∷ []) (omega arith)
      (ground arith)
text-GrantsNothing (vote_reply gid term granted) =
    let ls = codes "RAFT_RVR" ∷ to_string gid ∷ to_string term ∷ flag granted ∷ [] in
    let are_lines : All IsLine ls =
      (omega arith, (to_string-IsLine gid, (to_string-IsLine term, (flag-IsLine granted, tt)))) in
    rw (parse_parts-lines 4 ls are_lines) (λ _ e. flag-ne-one granted (cc e))

-- Without the wrap-around of the term, a node that has not won stays without a win.
react-Quiet :
    (rand : ℕ → ℕ) (e : Event) (n : RaftNode)
    → VotesForSelf n
    → n.current_term + 1 < 2 ^ 64
    → Ensures (Quiet n) (react rand e n)
react-Quiet rand ticks n v h = tick-Quiet rand n v h
react-Quiet rand (receives from m) n v h =
    λ k run. (step-Stepped rand from n v (text m) k run).1 (text-GrantsNothing m)
react-Quiet rand (proposes cmd) n v h = propose-Quiet rand cmd n v

-- The states of a group's node that was set up with `peers` over a log file.
pub data Reach (rand : ℕ → ℕ) (gid self : ℕ) (peers : List ℕ) (file : Bytes)
    : RaftNode → Type 0 where
  start :
      {n : RaftNode} → construct rand gid self peers file ≡ ok n → Reach rand gid self peers file n
  next :
      {n m : RaftNode} (e : Event)
      → Reach rand gid self peers file n
      → react rand e n ≡ ok m
      → Reach rand gid self peers file m

-- No term of the run is about to wrap around.
abbrev pub TermsFit :
    {rand : ℕ → ℕ} {gid self : ℕ} {peers : List ℕ} {file : Bytes} {n : RaftNode}
    → Reach rand gid self peers file n
    → Type 0
TermsFit (start run) = Unit
TermsFit (next {n} e r run) = (n.current_term + 1 < 2 ^ 64) × TermsFit r

abbrev NotLeading : RaftNode → Type 0
NotLeading n = VotesForSelf n × (n.state ≢ leader)

construct-NotLeading :
    (rand : ℕ → ℕ) (gid self p : ℕ) (ps : List ℕ) (file : Bytes)
    → Ensures NotLeading (construct rand gid self (p ∷ ps) file)
unfolding construct load_from_disk reset_election_timer
construct-NotLeading rand gid self p ps file m run = (λ e. ground arith, λ e. ground arith)

Reach-NotLeading :
    {rand : ℕ → ℕ} {gid self p : ℕ} {ps : List ℕ} {file : Bytes} {n : RaftNode}
    (r : Reach rand gid self (p ∷ ps) file n)
    → TermsFit r
    → NotLeading n
Reach-NotLeading (start {n} run) fit = construct-NotLeading _ _ _ _ _ _ n run
Reach-NotLeading (next {n} {m} e r run) fit =
    let (v, idle) = Reach-NotLeading r fit.1 in
    let q = react-Quiet _ e n v fit.0 m run in (q.progress.own, λ won. idle (q.rank won))

-- A group with peers whose nodes all run this code never has a leader: after any run of ticks,
-- messages that such nodes print and commands, in which no term reaches `2 ^ 64 - 1`, a node that
-- was set up with at least one peer is not the leader.
pub never_leads :
    {rand : ℕ → ℕ} {gid self p : ℕ} {ps : List ℕ} {file : Bytes} {n : RaftNode}
    (r : Reach rand gid self (p ∷ ps) file n)
    → TermsFit r
    → n.state ≢ leader
never_leads r fit = (Reach-NotLeading r fit).1
