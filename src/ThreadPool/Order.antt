-- ===== src/ThreadPool/Order.antt =====
-- util/ThreadPool: the order in which the tasks are started.
use kvjet.Prelude.{
  Bool, true, false, List, [], ◌∷◌, ◌++◌, ◌≡◌, refl, sym, ap, ◌∙◌, append_assoc, append-nil, subst,
}
use kvjet.Prelude.Outcome.{Ensures, Ensures-if, Ensures-ok}
use kvjet.ThreadPool.{
  Pool, enqueue, takes, work, shutdown, shutdown_now, Reach, made, accepted, taken, stopped,
  stopped_now,
}

module _ {ℓ} {A : Type ℓ} where
  -- Where the accepted tasks are: started, in the queue, or thrown away at the end.
  pub record InOrder (now : Bool) (acc : List A) (p : Pool A) : Type ℓ where
    pub lost : List A
    pub all : acc ≡ p.started ++ (p.tasks ++ lost)
    pub kept : now ≡ false → lost ≡ []
    pub open_queue : p.stop ≡ false → lost ≡ []

  nothing_lost :
      (now : Bool) (acc : List A) (p : Pool A) (r : InOrder now acc p)
      → r.lost ≡ []
      → acc ≡ p.started ++ p.tasks
  nothing_lost now acc p r e =
      r.all
      ∙ ap (λ l. p.started ++ (p.tasks ++ l)) e
      ∙ ap (λ l. p.started ++ l) (append-nil p.tasks)

  enqueue-InOrder :
      (now : Bool) (acc : List A) (task : A) (p : Pool A)
      → InOrder now acc p
      → Ensures (InOrder now (acc ++ task ∷ [])) (enqueue task p)
  unfolding enqueue
  enqueue-InOrder now acc task p r =
      Ensures-if (InOrder now (acc ++ task ∷ [])) p.stop _ _ (λ _ q e. cc)
        λ going.
          Ensures-ok (InOrder now (acc ++ task ∷ [])) (record p { tasks = p.tasks ++ task ∷ [] })
            (record {
              lost = [];
              all =
                  ap (λ l. l ++ task ∷ []) (nothing_lost now acc p r (r.open_queue going))
                  ∙ append_assoc p.started p.tasks (task ∷ [])
                  ∙ ap (λ l. p.started ++ l) (sym (append-nil (p.tasks ++ task ∷ [])));
              kept = λ _. refl;
              open_queue = λ _. refl;
            })

  takes_inj : {t u : A} {p q : Pool A} → takes t p ≡ takes u q → p ≡ q
  takes_inj e = cc

  work-InOrder :
      (now : Bool) (acc tasks : List A) (stop : Bool) (started : List A) (task : A) (q : Pool A)
      → InOrder now acc (record { tasks = tasks; stop = stop; started = started })
      → work (record { tasks = tasks; stop = stop; started = started }) ≡ takes task q
      → InOrder now acc q
  unfolding work
  work-InOrder now acc [] true started task q r run = cc
  work-InOrder now acc [] false started task q r run = cc
  work-InOrder now acc (t ∷ rest) stop started task q r run =
      subst (InOrder now acc) (takes_inj run) (record {
        lost = r.lost;
        all = r.all ∙ sym (append_assoc started (t ∷ []) (rest ++ r.lost));
        kept = r.kept;
        open_queue = r.open_queue;
      })

  Reach-InOrder : (now : Bool) (acc : List A) (p : Pool A) → Reach now acc p → InOrder now acc p
  unfolding shutdown shutdown_now
  Reach-InOrder _ _ _ made = record {
    lost = [];
    all = refl;
    kept = λ _. refl;
    open_queue = λ _. refl;
  }
  Reach-InOrder _ _ _ (accepted now acc task p q r e) =
      enqueue-InOrder now acc task p (Reach-InOrder now acc p r) q e
  Reach-InOrder _ _ _ (taken now acc task p q r e) =
      work-InOrder now acc p.tasks p.stop p.started task q (Reach-InOrder now acc p r) e
  Reach-InOrder _ _ _ (stopped now acc p r) =
      let i = Reach-InOrder now acc p r in
      record { lost = i.lost; all = i.all; kept = i.kept; open_queue = λ e. cc }
  Reach-InOrder _ _ _ (stopped_now now acc p r) =
      let i = Reach-InOrder now acc p r in
      record { lost = p.tasks ++ i.lost; all = i.all; kept = λ e. cc; open_queue = λ e. cc }

  -- However the threads interleave: the tasks that the workers have started, then those in the queue,
  -- then those that `shutdownnow` has thrown away, are the accepted ones, each once and in the order
  -- in which they were accepted. Without `shutdownnow` none is lost: when the workers have left, or
  -- the queue is empty otherwise, all accepted tasks have been started.
  pub Reach-started :
      (now : Bool) (acc : List A) (p : Pool A)
      → Reach now acc p
      → (lost : List A) × (acc ≡ p.started ++ (p.tasks ++ lost))
        × (now ≡ false → p.tasks ≡ [] → p.started ≡ acc)
  Reach-started now acc p r =
      let i = Reach-InOrder now acc p r in
      (
        i.lost,
        i.all,
        λ calm idle.
            sym (append-nil p.started)
            ∙ ap (λ l. p.started ++ l) (sym idle)
            ∙ sym (nothing_lost now acc p i (i.kept calm)),
      )
