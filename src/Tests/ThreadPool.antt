-- ===== src/Tests/ThreadPool.antt =====
-- A pool that is shut down while a task is waiting.
use kvjet.Prelude.{ℕ, true, false, List, [], ◌∷◌, ◌++◌, ◌≡◌, refl}
use kvjet.Prelude.Outcome.{raised}
use kvjet.ThreadPool.{Pool, new, enqueue, work, shutdown, Reach, made, accepted, taken, stopped}
use kvjet.ThreadPool.Order.{Reach-started}

abbrev left : List ℕ → List ℕ → Pool ℕ
left tasks started = record { tasks = tasks; stop = false; started = started }

abbrev closing : Pool ℕ
closing = record { tasks = 8 ∷ []; stop = true; started = 7 ∷ [] }

closing-Reach : Reach false (7 ∷ 8 ∷ []) closing
unfolding enqueue work shutdown
closing-Reach = stopped false (7 ∷ 8 ∷ []) (left (8 ∷ []) (7 ∷ [])) (
    taken false (7 ∷ 8 ∷ []) 7 (left (7 ∷ 8 ∷ []) []) _
      (accepted false (7 ∷ []) 8 (left (7 ∷ []) []) _ (accepted false [] 7 new _ made refl) refl)
      refl)

Reach-started_example :
    (lost : List ℕ) × ((7 ∷ 8 ∷ []) ≡ closing.started ++ (closing.tasks ++ lost))
    × (false ≡ false → closing.tasks ≡ [] → closing.started ≡ (7 ∷ 8 ∷ []))
Reach-started_example = Reach-started false (7 ∷ 8 ∷ []) closing closing-Reach

refused : enqueue 9 closing ≡ raised "stop!!"
unfolding enqueue
refused = refl
