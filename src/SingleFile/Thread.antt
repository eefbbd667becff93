-- ===== src/SingleFile/Thread.antt =====
-- accel_worker_thread of src/cortex_forge_main.c, in the steps of Worker.
use cortex_forge_driver.Base.{
  ℕ, ◌≡◌, ◌++◌, ◌+◌, ◌-◌, ◌%◌, ◌^◌, List, [], ◌∷◌, refl, true, if◌then◌else◌, ltb,
}
use cortex_forge_driver.Errno.{ok}
use cortex_forge_driver.Kernel.{Clock}
use cortex_forge_driver.Task.{running, complete, elapsed}
use cortex_forge_driver.Device.{Dev, accel_at, task_of, set_task, set_accel}
use cortex_forge_driver.Worker.{
  Pc, testing, waiting, woken, locking, starting, loading, timing, spinning, napping, sleeping,
  stamping, completing, clearing, unloading, signalling, unlinking, exited, Moment, is_running,
  list_del, worker_step, take_head,
}

-- The first section under the mutex.
unfoldable pub first_entry : Dev → ℕ → List ℕ → Dev × Pc
first_entry d a [] = (d, testing)
first_entry d a (i ∷ rest) = (
  set_accel d a (λ x. record x { task_queue = rest; active_tasks = x.active_tasks ++ i ∷ [] }),
  starting i,
)

-- min(100U, x), and max(0, x) of a difference of an int from x and 10 as a u32.
abbrev pub min_100 : ℕ → ℕ
min_100 x = if ltb 100 x then 100 else x

abbrev pub max_0_less_10 : ℕ → ℕ
max_0_less_10 x = if ltb x (2 ^ 31 + 10) then x - 10 else 0

module _ (clock : Clock) where
  unfoldable pub thread_step : Moment → Dev → ℕ → Pc → Dev × Pc
  unfolding first_entry
  thread_step e d a testing = (d, if (accel_at d a).running then waiting else exited)
  thread_step e d a waiting = (d, woken)
  thread_step e d a woken = (d, if (accel_at d a).running then locking else exited)
  thread_step e d a locking = first_entry d a (accel_at d a).task_queue
  thread_step e d a (starting i) = (set_task d i (λ t. record t { state = running }), loading i)
  thread_step e d a (loading i) = (
    set_accel d a (λ x. record x { load_percent = min_100 ((x.load_percent + 10) % 2 ^ 32) }),
    timing i,
  )
  thread_step e d a (timing i) = (
    d,
    if ltb 0 (task_of d i).timeout_ms
        then spinning i e.now (clock.msecs_to_jiffies (task_of d i).timeout_ms)
        else sleeping i,
  )
  thread_step e d a (spinning i begin timeout) = (
    d,
    if ltb (elapsed e.now begin) timeout
        then (if is_running (task_of d i).state then napping i begin timeout else stamping i)
        else stamping i,
  )
  thread_step e d a (napping i begin timeout) =
      (d, if e.should_stop then stamping i else spinning i begin timeout)
  thread_step e d a (sleeping i) = (d, stamping i)
  thread_step e d a (stamping i) =
      (set_task d i (λ t. record t { complete_jiffies = e.now }), completing i)
  thread_step e d a (completing i) = (set_task d i (λ t. record t { state = complete }), clearing i)
  thread_step e d a (clearing i) = (set_task d i (λ t. record t { error_code = ok }), unloading i)
  thread_step e d a (unloading i) =
      (set_accel d a (λ x. record x { load_percent = max_0_less_10 x.load_percent }), signalling i)
  thread_step e d a (signalling i) = (set_task d i (λ t. record t { done = true }), unlinking i)
  thread_step e d a (unlinking i) =
      (set_accel d a (λ x. record x { active_tasks = list_del i x.active_tasks }), testing)
  thread_step e d a exited = (d, exited)

  first_entry_lem : (d : Dev) (a : ℕ) (queue : List ℕ) → first_entry d a queue ≡ take_head d a queue
  unfolding first_entry take_head
  first_entry_lem d a [] = refl
  first_entry_lem d a (i ∷ rest) = refl

  -- Both drivers' threads do the same.
  pub thread_step_lem :
      (e : Moment) (d : Dev) (a : ℕ) (p : Pc) → thread_step e d a p ≡ worker_step clock e d a p
  unfolding thread_step worker_step
  thread_step_lem e d a testing = refl
  thread_step_lem e d a waiting = refl
  thread_step_lem e d a woken = refl
  thread_step_lem e d a locking = first_entry_lem d a (accel_at d a).task_queue
  thread_step_lem e d a (starting i) = refl
  thread_step_lem e d a (loading i) = refl
  thread_step_lem e d a (timing i) = refl
  thread_step_lem e d a (spinning i begin timeout) = refl
  thread_step_lem e d a (napping i begin timeout) = refl
  thread_step_lem e d a (sleeping i) = refl
  thread_step_lem e d a (stamping i) = refl
  thread_step_lem e d a (completing i) = refl
  thread_step_lem e d a (clearing i) = refl
  thread_step_lem e d a (unloading i) = refl
  thread_step_lem e d a (signalling i) = refl
  thread_step_lem e d a (unlinking i) = refl
  thread_step_lem e d a exited = refl
