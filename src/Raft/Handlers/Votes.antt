-- ===== src/Raft/Handlers/Votes.antt =====
-- One vote in a term.
use kvjet.Prelude.{
  ℕ, ◌+◌, ◌<◌, ◌^◌, List, ◌≡◌, ◌≢◌, refl, Bytes, false, arith, some, ◌⊎◌, inl, inr, ltb→lt, ltb,
  length, Bool-cases,
}
use kvjet.Prelude.Outcome.{Outcome, ok, Ensures, Ensures-bind, Ensures-ok, Ensures-if}
use kvjet.Raft.Node.{RaftNode, become_follower, reset_election_timer}
use kvjet.Raft.Handlers.{
  step, tick, propose, handle_request_vote, decide_vote, number_at, reply_vote,
}
use kvjet.Raft.Handlers.Progress.{VotesForSelf, Progress, Progress-trans}
use kvjet.Raft.Handlers.Quiet.{tick-Quiet, propose-Quiet}
use kvjet.Raft.Handlers.Step.{step-Stepped}

-- What can happen to a node: a tick, a text from another node, a command of a client.
pub data Input : Type 0 where
  ticks : Input
  receives : ℕ → Bytes → Input
  proposes : Bytes → Input

abbrev pub respond : (ℕ → ℕ) → Input → RaftNode → Outcome RaftNode
respond rand ticks n = tick rand n
respond rand (receives from raw) n = step rand from raw n
respond rand (proposes cmd) n = propose cmd n

pub data Run (rand : ℕ → ℕ) (n : RaftNode) : RaftNode → Type 0 where
  here : Run rand n n
  next : {m k : RaftNode} (i : Input) → Run rand n m → respond rand i m ≡ ok k → Run rand n k

-- No term of the run is about to wrap around.
abbrev pub TermsFit : {rand : ℕ → ℕ} {n m : RaftNode} → Run rand n m → Type 0
TermsFit here = Unit
TermsFit (next {m} i r run) = (m.current_term + 1 < 2 ^ 64) × TermsFit r

respond-Progress :
    (rand : ℕ → ℕ) (i : Input) (n : RaftNode)
    → VotesForSelf n
    → n.current_term + 1 < 2 ^ 64
    → Ensures (Progress n) (respond rand i n)
respond-Progress rand ticks n v h = λ m run. (tick-Quiet rand n v h m run).progress
respond-Progress rand (receives from raw) n v h = λ m run. (step-Stepped rand from n v raw m run).0
respond-Progress rand (proposes cmd) n v h = λ m run. (propose-Quiet rand cmd n v m run).progress

pub Run-Progress :
    {rand : ℕ → ℕ} {n m : RaftNode} (r : Run rand n m) → VotesForSelf n → TermsFit r → Progress n m
Run-Progress {n = n} here v fit = record {
  term = omega arith;
  self = refl;
  peers = refl;
  vote = λ w _ h _. h;
  own = v;
  indexed = λ i. i;
}
Run-Progress (next {m} {k} i r run) v fit =
    let p = Run-Progress r v fit.1 in Progress-trans p (respond-Progress _ i m p.own fit.0 k run)

-- A node that has voted for `p` in its term refuses everybody else in that term.
decide_vote_refuses :
    (rand : ℕ → ℕ) (p q idx last : ℕ) (n : RaftNode)
    → n.voted_for ≡ some p
    → q ≢ p
    → decide_vote rand q idx last n ≡ reply_vote q false n
unfolding decide_vote
decide_vote_refuses rand p q idx last n h other = ground arith

current_term-decide_vote :
    (rand : ℕ → ℕ) (q idx last : ℕ) (n : RaftNode)
    → (decide_vote rand q idx last n).current_term ≡ n.current_term
unfolding decide_vote reset_election_timer
current_term-decide_vote rand q idx last n = ground arith

current_term-become_follower :
    (rand : ℕ → ℕ) (term : ℕ) (n : RaftNode) → (become_follower rand term n).current_term ≡ term
unfolding become_follower
current_term-become_follower rand term n = refl

-- The node that answered a vote request of `q` with a refusal, or did not answer a malformed one.
abbrev pub Refused : ℕ → RaftNode → RaftNode → Type 0
Refused q n m = (m ≡ n) ⊎ (m ≡ reply_vote q false n)

handle_request_vote_refuses :
    (rand : ℕ → ℕ) (p q : ℕ) (parts : List Bytes) (n : RaftNode)
    → n.voted_for ≡ some p
    → q ≢ p
    → Ensures
        (λ m. m.current_term ≡ n.current_term → Refused q n m)
        (handle_request_vote rand q parts n)
unfolding handle_request_vote
handle_request_vote_refuses rand p q parts n voted other =
    let P : RaftNode → Type 0 = λ m. m.current_term ≡ n.current_term → Refused q n m in
    Ensures-if P (ltb (length parts) 5) _ _ (λ _. Ensures-ok P n (λ _. inl refl))
      λ _. Ensures-bind P (number_at parts 2) _ λ term _.
        Ensures-bind P (number_at parts 3) _ λ idx _. Ensures-bind P (number_at parts 4) _ λ last _.
          Ensures-if P (ltb term n.current_term) _ _
            (λ _. Ensures-ok P (reply_vote q false n) (λ _. inr refl))
            λ _. elim (Bool-cases (ltb n.current_term term)) [
              | inl later ↦ rw later (
                  Ensures-ok P (decide_vote rand q idx last (become_follower rand term n)) λ same.
                    absurd (
                      omega (
                        arith,
                        same,
                        ltb→lt n.current_term term later,
                        current_term-decide_vote rand q idx last (become_follower rand term n),
                        current_term-become_follower rand term n,
                      )))
              | inr e ↦ rw e (
                  Ensures-ok P (decide_vote rand q idx last n)
                    λ _. inr (decide_vote_refuses rand p q idx last n voted other))
            ]

-- One vote in a term. Let a node have voted for `p`, another node. After any further ticks, texts of
-- whatever content and commands that leave it in the same term, it refuses the vote to every `q`
-- other than `p`: its only reaction to a request of `q` that keeps the term is a negative reply.
pub one_vote :
    {rand : ℕ → ℕ} {n m : RaftNode} (run : Run rand n m) (p q : ℕ) (parts : List Bytes)
    (k : RaftNode)
    → VotesForSelf n
    → TermsFit run
    → n.voted_for ≡ some p
    → p ≢ n.self_id
    → q ≢ p
    → m.current_term ≡ n.current_term
    → handle_request_vote rand q parts m ≡ ok k
    → k.current_term ≡ m.current_term
    → Refused q m k
one_vote run p q parts k own fit voted other differ same answered still =
    let progress = Run-Progress run own fit in
    handle_request_vote_refuses _ p q parts _ (progress.vote p same voted other) differ k answered
      still
