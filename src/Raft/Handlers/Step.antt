-- ===== src/Raft/Handlers/Step.antt =====
-- `step` on a text of any kind.
use kvjet.Prelude.{ℕ, List, [], ◌∷◌, ◌≡◌, ◌≢◌, Bytes, codes, ◌=ᵇ◌, =ᵇ→eq, ap}
use kvjet.Prelude.Outcome.{ok, Ensures, Ensures-ok, Ensures-if}
use kvjet.Raft.Message.{part, parse_parts}
use kvjet.Raft.Node.{RaftNode}
use kvjet.Raft.Handlers.{step, dispatch}
use kvjet.Raft.Handlers.Frame.{SameRole-refl}
use kvjet.Raft.Handlers.Progress.{VotesForSelf, Progress, Quiet, same-Quiet}
use kvjet.Raft.Handlers.Quiet.{
  handle_append_entries-Quiet, handle_append_entries_reply-Quiet, handle_request_vote-Quiet,
  handle_request_vote_reply-Progress,
}

-- The text is no vote reply whose flag is `1`.
abbrev pub GrantsNothing : List Bytes → Type 0
GrantsNothing parts = part parts 0 ≡ ok (codes "RAFT_RVR") → part parts 3 ≢ ok (codes "1")

-- What `step` does to a node, as far as elections are concerned.
abbrev pub Stepped : List Bytes → RaftNode → RaftNode → Type 0
Stepped parts n m = Progress n m × (GrantsNothing parts → Quiet n m)

module _ (rand : ℕ → ℕ) (from : ℕ) (n : RaftNode) (v : VotesForSelf n) where
  dispatch-Stepped : (parts : List Bytes) → Ensures (Stepped parts n) (dispatch rand from parts n)
  dispatch-Stepped [] =
      let q = same-Quiet v (SameRole-refl n) in Ensures-ok (Stepped [] n) n (q.progress, λ _. q)
  dispatch-Stepped (kind ∷ rest) =
      let parts = kind ∷ rest in
      let P = Stepped parts n in
      let quiet : (m : RaftNode) → Quiet n m → P m = λ m q. (q.progress, λ _. q) in
      Ensures-if P (kind =ᵇ codes "RAFT_AE") _ _
        (λ _ m run. quiet m (handle_append_entries-Quiet rand from parts n v m run))
        λ _.
          Ensures-if P (kind =ᵇ codes "RAFT_AER") _ _
            (λ _ m run. quiet m (handle_append_entries_reply-Quiet rand from parts n v m run))
            λ _.
              Ensures-if P (kind =ᵇ codes "RAFT_RV") _ _
                (λ _ m run. quiet m (handle_request_vote-Quiet rand from parts n v m run))
                λ _.
                  Ensures-if P (kind =ᵇ codes "RAFT_RVR") _ _
                    (λ named m run.
                      let (p, q) = handle_request_vote_reply-Progress rand parts n v m run in
                      (
                        p,
                        λ none_granted.
                            q (none_granted (ap ok (=ᵇ→eq kind (codes "RAFT_RVR") named))),
                      ))
                    (λ _. Ensures-ok P n (quiet n (same-Quiet v (SameRole-refl n))))

  pub step-Stepped : (raw : Bytes) → Ensures (Stepped (parse_parts raw) n) (step rand from raw n)
  unfolding step
  step-Stepped raw = dispatch-Stepped (parse_parts raw)
