-- ===== src/Worker/Turn.antt =====
-- One turn of a worker's loop, from its head back to its head, with no step of another between.
use cortex_forge_driver.Worker.{
  sleeping, spinning, locking, exited, waiting, Pc, testing, timing, stamping, Moment, worker_step,
  list_del, raise_load, lower_load, take_head,
}
use cortex_forge_driver.Worker.Finish.{spin-Ends, moments, Ticking, run, finished, six}
use cortex_forge_driver.Kernel.{Clock}
use cortex_forge_driver.Device.{task_of, Dev, accel_at}
use cortex_forge_driver.Task.{zero_task, Task, running, update_task}
use cortex_forge_driver.Accel.{Accel}
use cortex_forge_driver.Base.{
  inr, inl, Bool-cases, sym, ltb, subst, Bool, get_or-modify_map, arith, length, ◌<◌, if◌then◌else◌,
  ℕ, List, [], ◌∷◌, ◌++◌, ◌≡◌, refl, true, modify, modify-modify, ap, ap₂, ◌∙◌,
}

-- The device after two changes, of a task and of an accelerator.
abbrev pub changed : Dev → ℕ → (Task → Task) → ℕ → (Accel → Accel) → Dev
changed d i f a g = record {
  pool = update_task d.pool i f;
  accelerators = modify d.accelerators a g;
}

changed-changed :
    (d : Dev) (i : ℕ) (f f' : Task → Task) (a : ℕ) (g g' : Accel → Accel)
    → changed (changed d i f a g) i f' a g' ≡ changed d i (λ t. f' (f t)) a (λ x. g' (g x))
changed-changed d i f f' a g g' =
    ap₂ (λ ts as'. record { pool = record d.pool { tasks = ts }; accelerators = as' })
      (modify-modify d.pool.tasks i f f') (modify-modify d.accelerators a g g')

-- The accelerator when its worker has taken a task and counted it into the load.
abbrev pub picked : ℕ → List ℕ → Accel → Accel
picked i rest x = record x {
  task_queue = rest;
  active_tasks = x.active_tasks ++ i ∷ [];
  load_percent = raise_load x.load_percent;
}

-- The accelerator when its worker has dropped a task again.
abbrev pub dropped : ℕ → Accel → Accel
dropped i x = record x {
  load_percent = lower_load x.load_percent;
  active_tasks = list_del i x.active_tasks;
}

abbrev set_running : Task → Task
set_running t = record t { state = running }

module _ (clock : Clock) (a : ℕ) where
  run-append :
      (xs ys : List Moment) (s : Dev × Pc)
      → run clock a (xs ++ ys) s ≡ run clock a ys (run clock a xs s)
  unfolding run
  run-append [] ys s = refl
  run-append (x ∷ xs) ys (d, p) = run-append xs ys (worker_step clock x d a p)

  -- From the head of the loop to the choice of the wait.
  run-testing :
      (d : Dev) (i : ℕ) (rest : List ℕ) (m₁ m₂ m₃ m₄ m₅ m₆ : Moment)
      → (accel_at d a).running ≡ true
      → (accel_at d a).task_queue ≡ i ∷ rest
      → run clock a (six m₁ m₂ m₃ m₄ m₅ m₆) (d, testing)
        ≡ (changed d i set_running a (picked i rest), timing i)
  unfolding run worker_step take_head
  run-testing d i rest m₁ m₂ m₃ m₄ m₅ m₆ up queue =
      ap (run clock a (m₂ ∷ m₃ ∷ m₄ ∷ m₅ ∷ m₆ ∷ []))
        (ap (λ b. (d, if b then waiting else exited)) up)
      ∙ ap (run clock a (m₄ ∷ m₅ ∷ m₆ ∷ [])) (ap (λ b. (d, if b then locking else exited)) up)
      ∙ ap (λ q. run clock a (m₅ ∷ m₆ ∷ []) (take_head d a q)) queue
      ∙ ap
          (λ as'.
            (record { pool = update_task d.pool i set_running; accelerators = as' }, timing i))
          (modify-modify d.accelerators a _ _)

  -- From the end of the wait to the head of the loop.
  run_finish :
      (d : Dev) (i : ℕ) (m₁ m₂ m₃ m₄ m₅ m₆ : Moment)
      → run clock a (six m₁ m₂ m₃ m₄ m₅ m₆) (d, stamping i)
        ≡ (changed d i (finished m₁) a (dropped i), testing)
  unfolding run worker_step
  run_finish d i m₁ m₂ m₃ m₄ m₅ m₆ =
      ap₂ (λ ts as'. (record { pool = record d.pool { tasks = ts }; accelerators = as' }, testing))
        (simp modify-modify) (modify-modify d.accelerators a _ _)

  -- The wait of a task, at its own steps: an accelerator's task without a timeout waits one step, and
  -- one with a timeout goes through the inner loop.
  wait_ends :
      (d : Dev) (i : ℕ) (m : Moment) (rounds : List (Moment × Moment))
      → Ticking clock a m.now 0 rounds
      → clock.msecs_to_jiffies (task_of d i).timeout_ms < length rounds
      → (before : List Moment) × (others : List Moment) × (before ++ others
          ≡ moments clock a rounds)
        × (run clock a (m ∷ before) (d, timing i) ≡ (d, stamping i))
  unfolding run worker_step
  wait_ends d i m [] t h = absurd (omega (arith, h))
  wait_ends d i m ((n, n') ∷ rounds) t h = elim (Bool-cases (ltb 0 (task_of d i).timeout_ms)) [
    | inl timed ↦
        let (before, others, whole, ends) =
          spin-Ends clock a d i m.now (clock.msecs_to_jiffies (task_of d i).timeout_ms) 0
            ((n, n') ∷ rounds) t (omega (arith, h)) (omega arith) in
        (before, others, whole, ap (run clock a before) (chosen timed) ∙ ends)
    | inr untimed ↦
        (n ∷ [], n' ∷ moments clock a rounds, refl, ap (run clock a (n ∷ [])) (chosen untimed))
  ]
    where
      chosen :
          {b : Bool}
          → ltb 0 (task_of d i).timeout_ms ≡ b
          → worker_step clock m d a (timing i) ≡ (
            d,
            if b
                then spinning i m.now (clock.msecs_to_jiffies (task_of d i).timeout_ms)
                else sleeping i,
          )
      chosen e =
          ap
            (λ c. (
              d,
              if c
                  then spinning i m.now (clock.msecs_to_jiffies (task_of d i).timeout_ms)
                  else sleeping i,
            ))
            e

  -- A running worker whose queue starts with task i, at its own steps only: if the tests of its inner
  -- loop come at least a jiffy apart and there are more of them than the task's timeout has jiffies,
  -- then after one turn of its loop the task is complete with error 0, signalled and stamped with the
  -- moment of its end, the queue is without it, the active list has had it added and removed, the load
  -- has gone up and down, and nothing else of the device has changed.
  pub worker_turn :
      (d : Dev) (i : ℕ) (rest : List ℕ) (m₁ m₂ m₃ m₄ m₅ m₆ m₇ : Moment)
      (rounds : List (Moment × Moment)) (n₁ n₂ n₃ n₄ n₅ n₆ : Moment)
      → (accel_at d a).running ≡ true
      → (accel_at d a).task_queue ≡ i ∷ rest
      → Ticking clock a m₇.now 0 rounds
      → clock.msecs_to_jiffies (task_of d i).timeout_ms < length rounds
      → (before : List Moment) × (others : List Moment) × (before ++ others
          ≡ moments clock a rounds)
        × (run clock a
              (six m₁ m₂ m₃ m₄ m₅ m₆ ++ (m₇ ∷ before) ++ six n₁ n₂ n₃ n₄ n₅ n₆)
              (d, testing)
            ≡ (changed d i (finished n₁) a (λ x. dropped i (picked i rest x)), testing))
  worker_turn d i rest m₁ m₂ m₃ m₄ m₅ m₆ m₇ rounds n₁ n₂ n₃ n₄ n₅ n₆ up queue t h =
      let (before, others, whole, ends) =
        wait_ends (changed d i set_running a (picked i rest)) i m₇ rounds t
          (subst (λ n. clock.msecs_to_jiffies n < length rounds) (sym same_timeout) h) in
      (
        before,
        others,
        whole,
        run-append (six m₁ m₂ m₃ m₄ m₅ m₆) ((m₇ ∷ before) ++ six n₁ n₂ n₃ n₄ n₅ n₆) (d, testing)
            ∙ ap (run clock a ((m₇ ∷ before) ++ six n₁ n₂ n₃ n₄ n₅ n₆))
                (run-testing d i rest m₁ m₂ m₃ m₄ m₅ m₆ up queue)
            ∙ run-append (m₇ ∷ before) (six n₁ n₂ n₃ n₄ n₅ n₆)
                (changed d i set_running a (picked i rest), timing i)
            ∙ ap (run clock a (six n₁ n₂ n₃ n₄ n₅ n₆)) ends
            ∙ run_finish (changed d i set_running a (picked i rest)) i n₁ n₂ n₃ n₄ n₅ n₆
            ∙ ap (λ d'. (d', testing))
                (changed-changed d i set_running (finished n₁) a (picked i rest) (dropped i)),
      )
    where
      same_timeout :
          (task_of (changed d i set_running a (picked i rest)) i).timeout_ms
          ≡ (task_of d i).timeout_ms
      same_timeout =
          get_or-modify_map (λ (t : Task). t.timeout_ms) d.pool.tasks i i set_running zero_task
            (λ x. refl)
