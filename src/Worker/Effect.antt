-- ===== src/Worker/Effect.antt =====
-- What a worker's step may do: five effects, of which at most one is on a task.
use cortex_forge_driver.Base.{inr, inl, ◌≢◌, ◌⊎◌, ℕ, some, none, ltb, ◌≡◌, refl, if_cases}
use cortex_forge_driver.Uapi.{TaskDesc}
use cortex_forge_driver.Kernel.{Clock}
use cortex_forge_driver.Task.{Task, elapsed}
use cortex_forge_driver.Accel.{Accel}
use cortex_forge_driver.Device.{Dev, accel_at, task_of, set_task, set_accel}
use cortex_forge_driver.Chardev.{fill}
use cortex_forge_driver.Worker.{
  Pc, testing, waiting, woken, locking, starting, loading, timing, spinning, napping, sleeping,
  stamping, completing, clearing, unloading, signalling, unlinking, exited, Moment, worker_step,
  list_del, is_running,
}
use cortex_forge_driver.System.Order.{holds}

-- An update that keeps the id and the fields that a client sets.
pub record IsLocal (f : Task → Task) : Type 0 where
  pub id : (t : Task) → (f t).id ≡ t.id
  pub fields : (desc : TaskDesc) (t : Task) → fill desc (f t) ≡ f (fill desc t)

-- The worker of accelerator `a` steps from `(d, p)` to `(d', p')`.
pub data WorkEffect (a : ℕ) (d : Dev) (p : Pc) (d' : Dev) (p' : Pc) : Type 0 where
  moves : d' ≡ d → holds p' ≡ holds p → WorkEffect a d p d' p'
  updates :
      (i : ℕ) (f : Task → Task)
      → IsLocal f
      → d' ≡ set_task d i f
      → holds p ≡ some i
      → holds p' ≡ some i
      → WorkEffect a d p d' p'
  loads :
      (f : Accel → Accel)
      → ((x : Accel) → ((f x).task_queue ≡ x.task_queue) × ((f x).active_tasks ≡ x.active_tasks))
      → d' ≡ set_accel d a f
      → holds p' ≡ holds p
      → WorkEffect a d p d' p'
  unlinks :
      (i : ℕ)
      → d' ≡ set_accel d a (λ x. record x { active_tasks = list_del i x.active_tasks })
      → holds p ≡ some i
      → holds p' ≡ none
      → WorkEffect a d p d' p'

module _ (clock : Clock) (e : Moment) (d : Dev) (a : ℕ) where
  abbrev Moved : Pc → Pc → Type 0
  Moved p p' = WorkEffect a d p d p'

  -- Every step but the one that takes the head of the queue.
  pub worker_step-Effect :
      (p : Pc)
      → p ≢ locking
      → WorkEffect a d p (worker_step clock e d a p).0 (worker_step clock e d a p).1
  unfolding worker_step
  worker_step-Effect testing ne =
      if_cases (Moved testing) (accel_at d a).running (moves refl refl) (moves refl refl)
  worker_step-Effect waiting ne = moves refl refl
  worker_step-Effect woken ne =
      if_cases (Moved woken) (accel_at d a).running (moves refl refl) (moves refl refl)
  worker_step-Effect locking ne = absurd (ne refl)
  worker_step-Effect (starting i) ne =
      updates i _ (record { id = λ t. refl; fields = λ desc t. refl }) refl refl refl
  worker_step-Effect (loading i) ne = loads _ (λ x. (refl, refl)) refl refl
  worker_step-Effect (timing i) ne =
      if_cases (Moved (timing i)) (ltb 0 (task_of d i).timeout_ms) (moves refl refl)
        (moves refl refl)
  worker_step-Effect (spinning i s t) ne =
      if_cases (Moved (spinning i s t)) (ltb (elapsed e.now s) t)
        (if_cases (Moved (spinning i s t)) (is_running (task_of d i).state) (moves refl refl)
          (moves refl refl))
        (moves refl refl)
  worker_step-Effect (napping i s t) ne =
      if_cases (Moved (napping i s t)) e.should_stop (moves refl refl) (moves refl refl)
  worker_step-Effect (sleeping i) ne = moves refl refl
  worker_step-Effect (stamping i) ne =
      updates i _ (record { id = λ t. refl; fields = λ desc t. refl }) refl refl refl
  worker_step-Effect (completing i) ne =
      updates i _ (record { id = λ t. refl; fields = λ desc t. refl }) refl refl refl
  worker_step-Effect (clearing i) ne =
      updates i _ (record { id = λ t. refl; fields = λ desc t. refl }) refl refl refl
  worker_step-Effect (unloading i) ne = loads _ (λ x. (refl, refl)) refl refl
  worker_step-Effect (signalling i) ne =
      updates i _ (record { id = λ t. refl; fields = λ desc t. refl }) refl refl refl
  worker_step-Effect (unlinking i) ne = unlinks i refl refl refl
  worker_step-Effect exited ne = moves refl refl

pub locking_cases : (p : Pc) → (p ≡ locking) ⊎ (p ≢ locking)
locking_cases locking = inl refl
locking_cases testing = inr (λ q. cc)
locking_cases waiting = inr (λ q. cc)
locking_cases woken = inr (λ q. cc)
locking_cases (starting i) = inr (λ q. cc)
locking_cases (loading i) = inr (λ q. cc)
locking_cases (timing i) = inr (λ q. cc)
locking_cases (spinning i s t) = inr (λ q. cc)
locking_cases (napping i s t) = inr (λ q. cc)
locking_cases (sleeping i) = inr (λ q. cc)
locking_cases (stamping i) = inr (λ q. cc)
locking_cases (completing i) = inr (λ q. cc)
locking_cases (clearing i) = inr (λ q. cc)
locking_cases (unloading i) = inr (λ q. cc)
locking_cases (signalling i) = inr (λ q. cc)
locking_cases (unlinking i) = inr (λ q. cc)
locking_cases exited = inr (λ q. cc)
