-- ===== src/Concurrent/Torn.antt =====
-- A cancellation and the worker of the same task: task_cancel writes the state and then the error
-- without a lock, and so does the worker, and the writes of the two may alternate.
use cortex_forge_driver.Base.{ℕ, ◌<◌, ◌≡◌, refl, length, modify-modify, get_or-modify_self}
use cortex_forge_driver.Errno.{ok, fail, ecanceled}
use cortex_forge_driver.Kernel.{UserMemory, Clock}
use cortex_forge_driver.Task.{cancelled, complete, zero_task}
use cortex_forge_driver.Device.{Dev, task_of}
use cortex_forge_driver.Worker.{Pc, completing, unloading, Moment, worker_step}
use cortex_forge_driver.Concurrent.{Call, marking, waking, call_step}

module _ (user : UserMemory) (clock : Clock) (a : ℕ) (m : user.Mem) (uarg now : ℕ)
    (e : Moment) where
  abbrev pub Both : Type 0
  Both = Dev × Call × Pc

  -- The next move of the caller, and of the worker.
  abbrev pub caller_moves : Both → Both
  caller_moves (d, k, p) = let (d', k', m') = call_step user m uarg now d k in (d', k', p)

  abbrev pub worker_moves : Both → Both
  worker_moves (d, k, p) = let (d', p') = worker_step clock e d a p in (d', k, p')

  -- When a caller has found its task and the task's worker is about to mark it complete: if the worker
  -- marks, the caller writes the state and the error, and the worker clears, the task is then cancelled
  -- with error 0; if the caller writes the state, the worker marks and clears, and the caller writes the
  -- error, the task is then complete with -ECANCELED.
  pub cancel_torn :
      (d : Dev) (i : ℕ)
      → i < length d.pool.tasks
      → let s : Both = (d, marking i, completing i) in
        let (d₁, k₁, p₁) = worker_moves (caller_moves (caller_moves (worker_moves s))) in
        let (d₂, k₂, p₂) = caller_moves (worker_moves (worker_moves (caller_moves s))) in
        ((k₁ ≡ waking i)
          × (p₁ ≡ unloading i)
          × (task_of d₁ i ≡ record (task_of d i) { state = cancelled; error_code = ok }))
        × ((k₂ ≡ waking i)
            × (p₂ ≡ unloading i)
            × (task_of d₂ i
                ≡ record (task_of d i) { state = complete; error_code = fail ecanceled }))
  unfolding worker_step call_step
  cancel_torn d i lt = (
    (refl, refl, simp modify-modify (get_or-modify_self d.pool.tasks i _ zero_task lt)),
    (refl, refl, simp modify-modify (get_or-modify_self d.pool.tasks i _ zero_task lt)),
  )
