-- ===== src/Raft/Handlers/Progress.antt =====
-- How a handler moves a node on: its term, its vote and its state.
use kvjet.Prelude.{
  ℕ, ◌+◌, ◌≤◌, ◌<◌, ◌^◌, ◌≡◌, ◌≢◌, refl, sym, ap, arith, ◌∙◌, some, length, ltb, inl, inr,
  Bool-cases, ltb→lt,
}
use kvjet.Raft.Node.{
  candidate, leader, RaftNode, become_follower, become_candidate, reset_election_timer,
}
use kvjet.Raft.Handlers.{step_down, is_state, decide_vote}
use kvjet.Raft.Handlers.Frame.{SameRole, SameRole-refl}

-- A candidate has voted for itself.
abbrev pub VotesForSelf : RaftNode → Type 0
VotesForSelf n = n.state ≡ candidate → n.voted_for ≡ some n.self_id

-- A leader keeps an index for each of its peers.
abbrev pub IsIndexed : RaftNode → Type 0
IsIndexed n =
    n.state ≡ leader
    → (length n.next_index ≡ length n.peers) × (length n.match_index ≡ length n.peers)

-- From `n` to `m` the term does not fall, and in one term a vote for another node is kept.
pub record Progress (n m : RaftNode) : Type 0 where
  pub term : n.current_term ≤ m.current_term
  pub self : m.self_id ≡ n.self_id
  pub peers : m.peers ≡ n.peers
  pub vote :
      (v : ℕ)
      → m.current_term ≡ n.current_term
      → n.voted_for ≡ some v
      → v ≢ n.self_id
      → m.voted_for ≡ some v
  pub own : VotesForSelf m
  pub indexed : IsIndexed n → IsIndexed m

-- Moreover the node has not become the leader.
pub record Quiet (n m : RaftNode) : Type 0 where
  pub progress : Progress n m
  pub rank : m.state ≡ leader → n.state ≡ leader

pub same-Quiet : {n m : RaftNode} → VotesForSelf n → SameRole n m → Quiet n m
same-Quiet v s = record {
  progress = record {
    term = omega (arith, s.term);
    self = s.self;
    peers = s.peers;
    vote = λ w _ h _. s.vote ∙ h;
    own = λ e. s.vote ∙ (v (sym s.state ∙ e) ∙ ap some (sym s.self));
    indexed = λ i e.
        let (next, matched) = i (sym s.state ∙ e) in
        let size = ap length (sym s.peers) in (s.next ∙ next ∙ size, s.matched ∙ matched ∙ size);
  };
  rank = λ e. sym s.state ∙ e;
}

pub Progress-trans : {n m k : RaftNode} → Progress n m → Progress m k → Progress n k
Progress-trans p q = record {
  term = omega (arith, p.term, q.term);
  self = q.self ∙ p.self;
  peers = q.peers ∙ p.peers;
  vote = λ v same h other.
      q.vote v (omega (arith, p.term, q.term)) (p.vote v (omega (arith, p.term, q.term)) h other)
        (λ e. other (e ∙ p.self));
  own = q.own;
  indexed = λ i. q.indexed (p.indexed i);
}

pub Quiet-trans : {n m k : RaftNode} → Quiet n m → Quiet m k → Quiet n k
Quiet-trans a b = record {
  progress = Progress-trans a.progress b.progress;
  rank = λ e. a.rank (b.rank e);
}

module _ (rand : ℕ → ℕ) where
  pub become_follower-Quiet :
      (term : ℕ) (n : RaftNode) → n.current_term < term → Quiet n (become_follower rand term n)
  unfolding become_follower
  become_follower-Quiet term n h = record {
    progress = record {
      term = ground arith;
      self = refl;
      peers = refl;
      vote = λ w same voted other. ground arith;
      own = λ e. ground arith;
      indexed = λ i e. ground arith;
    };
    rank = λ e. ground arith;
  }

  become_follower-Quiet_candidate :
      (term : ℕ) (n : RaftNode)
      → VotesForSelf n
      → n.state ≡ candidate
      → n.current_term ≤ term
      → Quiet n (become_follower rand term n)
  unfolding become_follower
  become_follower-Quiet_candidate term n v c h = record {
    progress = record {
      term = ground arith;
      self = refl;
      peers = refl;
      vote = λ w same voted other. ground (arith, v c);
      own = λ e. ground arith;
      indexed = λ i e. ground arith;
    };
    rank = λ e. ground arith;
  }

  pub become_candidate-Quiet :
      (n : RaftNode) → n.current_term + 1 < 2 ^ 64 → Quiet n (become_candidate rand n)
  unfolding become_candidate
  become_candidate-Quiet n h = record {
    progress = record {
      term = ground arith;
      self = refl;
      peers = refl;
      vote = λ w same voted other. ground arith;
      own = λ e. ground arith;
      indexed = λ i e. ground arith;
    };
    rank = λ e. ground arith;
  }

  pub decide_vote-Quiet :
      (from idx term : ℕ) (n : RaftNode)
      → VotesForSelf n
      → Quiet n (decide_vote rand from idx term n)
  unfolding decide_vote reset_election_timer
  decide_vote-Quiet from idx term n v = record {
    progress = record {
      term = ground arith;
      self = ground arith;
      peers = ground arith;
      vote = λ w same voted other. ground arith;
      own = λ e. ground (arith, v);
      indexed = λ i e. ground (arith, i);
    };
    rank = λ e. ground arith;
  }

  pub step_down-Quiet :
      (term : ℕ) (n : RaftNode)
      → VotesForSelf n
      → n.current_term ≤ term
      → Quiet n (step_down rand term n)
  unfolding step_down
  step_down-Quiet term n v h = elim (Bool-cases (ltb n.current_term term)) [
    | inl later ↦ rw later (become_follower-Quiet term n (ltb→lt _ _ later))
    | inr e ↦ elim (Bool-cases (is_state n.state candidate)) [
      | inl c ↦ rw (e, c) (become_follower-Quiet_candidate term n v (ground arith) h)
      | inr c ↦ rw (e, c) (same-Quiet v (SameRole-refl n))
    ]
  ]
