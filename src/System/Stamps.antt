-- ===== src/System/Stamps.antt =====
-- The times that a task carries: of its submission and of its end.
use cortex_forge_driver.Base.{
  ℕ, ◌≤◌, ◌<◌, ◌≡◌, ◌⊎◌, inl, inr, List, [], ◌∷◌, refl, ap, sym, ◌∙◌, length, get_or-modify_self,
  get_or-modify_ne, get_or-modify_map, ℕ_discrete, if_cases, ltb,
}
use cortex_forge_driver.Task.{Task, Pool, complete, zero_task, elapsed, task_at}
use cortex_forge_driver.Task.Slots.{get_or-modify_keeps}
use cortex_forge_driver.Device.{Dev, accel_at, task_of}
use cortex_forge_driver.Kernel.{Clock}
use cortex_forge_driver.Worker.{
  Pc, testing, woken, locking, starting, timing, spinning, napping, stamping, completing, clearing,
  signalling, is_running, Moment, worker_step, take_head,
}
use cortex_forge_driver.Worker.Frame.{pool-take_head}

-- The tasks' times lie in the past, and a task that is complete, or about to be, ended after its
-- submission.
pub record IsStamped (d : Dev) (pc : ℕ → Pc) (time : ℕ) : Type 0 where
  pub submitted : (i : ℕ) → (task_of d i).submit_jiffies ≤ time
  pub past : (i : ℕ) → (task_of d i).complete_jiffies ≤ time
  pub ended :
      (i : ℕ)
      → (task_of d i).state ≡ complete
      → (task_of d i).submit_jiffies ≤ (task_of d i).complete_jiffies
  pub stamped :
      (a i : ℕ)
      → pc a ≡ completing i
      → (task_of d i).submit_jiffies ≤ (task_of d i).complete_jiffies

module _ (clock : Clock) (e : Moment) (d : Dev) (a i : ℕ) where
  pub submit_jiffies-worker_step :
      (p : Pc)
      → (task_of (worker_step clock e d a p).0 i).submit_jiffies ≡ (task_of d i).submit_jiffies
  unfolding worker_step
  submit_jiffies-worker_step locking =
      ap (λ (p : Pool). (task_at p i).submit_jiffies) (pool-take_head d a (accel_at d a).task_queue)
  submit_jiffies-worker_step (starting j) =
      get_or-modify_map (λ (t : Task). t.submit_jiffies) d.pool.tasks j i _ zero_task (λ t. refl)
  submit_jiffies-worker_step (stamping j) =
      get_or-modify_map (λ (t : Task). t.submit_jiffies) d.pool.tasks j i _ zero_task (λ t. refl)
  submit_jiffies-worker_step (completing j) =
      get_or-modify_map (λ (t : Task). t.submit_jiffies) d.pool.tasks j i _ zero_task (λ t. refl)
  submit_jiffies-worker_step (clearing j) =
      get_or-modify_map (λ (t : Task). t.submit_jiffies) d.pool.tasks j i _ zero_task (λ t. refl)
  submit_jiffies-worker_step (signalling j) =
      get_or-modify_map (λ (t : Task). t.submit_jiffies) d.pool.tasks j i _ zero_task (λ t. refl)
  submit_jiffies-worker_step _ = refl

  -- Only the stamp of the end is new, and it is the moment of the step.
  abbrev pub IsEndKept : Task → Type 0
  IsEndKept t = (t.complete_jiffies ≡ (task_of d i).complete_jiffies) ⊎ (t.complete_jiffies ≡ e.now)

  pub complete_jiffies-worker_step : (p : Pc) → IsEndKept (task_of (worker_step clock e d a p).0 i)
  unfolding worker_step
  complete_jiffies-worker_step locking = inl (
      ap (λ (p : Pool). (task_at p i).complete_jiffies)
        (pool-take_head d a (accel_at d a).task_queue))
  complete_jiffies-worker_step (starting j) =
      get_or-modify_keeps IsEndKept d.pool.tasks j i _ (λ t h. h) (inl refl)
  complete_jiffies-worker_step (stamping j) =
      get_or-modify_keeps IsEndKept d.pool.tasks j i _ (λ t h. inr refl) (inl refl)
  complete_jiffies-worker_step (completing j) =
      get_or-modify_keeps IsEndKept d.pool.tasks j i _ (λ t h. h) (inl refl)
  complete_jiffies-worker_step (clearing j) =
      get_or-modify_keeps IsEndKept d.pool.tasks j i _ (λ t h. h) (inl refl)
  complete_jiffies-worker_step (signalling j) =
      get_or-modify_keeps IsEndKept d.pool.tasks j i _ (λ t h. h) (inl refl)
  complete_jiffies-worker_step _ = inl refl

  -- A task becomes complete by the step for it.
  abbrev pub IsCompleted : Pc → Task → Type 0
  IsCompleted p t = t.state ≡ complete → ((task_of d i).state ≡ complete) ⊎ (p ≡ completing i)

  pub worker_step-IsCompleted : (p : Pc) → IsCompleted p (task_of (worker_step clock e d a p).0 i)
  unfolding worker_step
  worker_step-IsCompleted locking = λ h. inl (
      sym (ap (λ (p : Pool). (task_at p i).state) (pool-take_head d a (accel_at d a).task_queue))
      ∙ h)
  worker_step-IsCompleted (starting j) =
      get_or-modify_keeps (IsCompleted (starting j)) d.pool.tasks j i _ (λ t k q. cc) inl
  worker_step-IsCompleted (stamping j) =
      get_or-modify_keeps (IsCompleted (stamping j)) d.pool.tasks j i _ (λ t k q. k q) inl
  worker_step-IsCompleted (clearing j) =
      get_or-modify_keeps (IsCompleted (clearing j)) d.pool.tasks j i _ (λ t k q. k q) inl
  worker_step-IsCompleted (signalling j) =
      get_or-modify_keeps (IsCompleted (signalling j)) d.pool.tasks j i _ (λ t k q. k q) inl
  worker_step-IsCompleted (completing j) = λ h. elim (ℕ_discrete j i) [
    | yes same ↦ inr (ap completing same)
    | no ne ↦
        inl
          (sym (ap (λ (t : Task). t.state) (get_or-modify_ne d.pool.tasks j i _ zero_task ne)) ∙ h)
  ]
  worker_step-IsCompleted _ = inl

  not_taken : (queue : List ℕ) → (take_head d a queue).1 ≡ completing i → ⊥
  unfolding take_head
  not_taken [] h = cc
  not_taken (j ∷ rest) h = cc

  pub completing_after : (p : Pc) → (worker_step clock e d a p).1 ≡ completing i → p ≡ stamping i
  unfolding worker_step
  completing_after (stamping j) h = let same : j ≡ i = cc in ap stamping same
  completing_after locking h = absurd (not_taken (accel_at d a).task_queue h)
  completing_after testing h =
      absurd (if_cases (λ p. p ≡ completing i → ⊥) (accel_at d a).running (λ q. cc) (λ q. cc) h)
  completing_after woken h =
      absurd (if_cases (λ p. p ≡ completing i → ⊥) (accel_at d a).running (λ q. cc) (λ q. cc) h)
  completing_after (timing j) h =
      absurd (
        if_cases (λ p. p ≡ completing i → ⊥) (ltb 0 (task_of d j).timeout_ms) (λ q. cc) (λ q. cc) h)
  completing_after (spinning j begin timeout) h = absurd (
      if_cases (λ p. p ≡ completing i → ⊥) (ltb (elapsed e.now begin) timeout)
        (if_cases (λ p. p ≡ completing i → ⊥) (is_running (task_of d j).state) (λ q. cc) (λ q. cc))
        (λ q. cc) h)
  completing_after (napping j begin timeout) h =
      absurd (if_cases (λ p. p ≡ completing i → ⊥) e.should_stop (λ q. cc) (λ q. cc) h)
  completing_after _ h = cc

  pub stamped-worker_step :
      i < length d.pool.tasks
      → (task_of (worker_step clock e d a (stamping i)).0 i).complete_jiffies ≡ e.now
  unfolding worker_step
  stamped-worker_step lt =
      ap (λ (t : Task). t.complete_jiffies) (get_or-modify_self d.pool.tasks i _ zero_task lt)
