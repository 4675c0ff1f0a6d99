-- ===== src/ThreadPool.antt =====
-- util/ThreadPool: the queue of the tasks, and what the workers take from it. A step is what stands
-- under the lock, so that the threads interleave in any order. The binding to a processor is left out.
pub mod Order
use kvjet.Prelude.{Bool, true, false, List, [], ◌∷◌, ◌++◌, ◌≡◌, if◌then◌else◌}
use kvjet.Prelude.Outcome.{Outcome, ok, raised}

-- The class; `started` are the tasks that the workers have taken, in the order in which they took them.
pub record Pool {ℓ} (A : Type ℓ) : Type ℓ where
  pub tasks : List A
  pub stop : Bool
  pub started : List A

-- What a worker that is awake does: it waits for a task, leaves, or takes the first task.
pub data Worker {ℓ} (A : Type ℓ) : Type ℓ where
  waits leaves : Worker A
  takes : A → Pool A → Worker A

module _ {ℓ} {A : Type ℓ} where
  abbrev pub new : Pool A
  new = record { tasks = []; stop = false; started = [] }

  unfoldable pub enqueue : A → Pool A → Outcome (Pool A)
  enqueue task p =
      if p.stop then raised "stop!!" else ok (record p { tasks = p.tasks ++ task ∷ [] })

  unfoldable pub work : Pool A → Worker A
  work p = elim p.tasks [
    | [] ↦ if p.stop then leaves else waits
    | task ∷ rest ↦ takes task (record p { tasks = rest; started = p.started ++ task ∷ [] })
  ]

  unfoldable pub shutdown : Pool A → Pool A
  shutdown p = record p { stop = true }

  unfoldable pub shutdown_now : Pool A → Pool A
  shutdown_now p = record p { stop = true; tasks = [] }

  -- The pools that can be reached, with the tasks that `enqueue` has accepted so far, and whether
  -- `shutdownnow` has been called.
  pub data Reach : Bool → List A → Pool A → Type ℓ where
    made : Reach false [] new
    accepted :
        (now : Bool) (acc : List A) (task : A) (p q : Pool A)
        → Reach now acc p
        → enqueue task p ≡ ok q
        → Reach now (acc ++ task ∷ []) q
    taken :
        (now : Bool) (acc : List A) (task : A) (p q : Pool A)
        → Reach now acc p
        → work p ≡ takes task q
        → Reach now acc q
    stopped :
        (now : Bool) (acc : List A) (p : Pool A) → Reach now acc p → Reach now acc (shutdown p)
    stopped_now :
        (now : Bool) (acc : List A) (p : Pool A) → Reach now acc p → Reach true acc (shutdown_now p)
