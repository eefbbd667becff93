-- ===== src/Worker.antt =====
-- accel_worker_thread of src/accel_manager.c, one access to shared state at a time. The worker of
-- accelerator `a` is a program counter that carries the thread's local variables.
pub mod Frame
pub mod Effect
pub mod Finish
pub mod Turn
pub mod Cancelled
pub mod Stop
use cortex_forge_driver.Base.{
  ℕ, ◌+◌, ◌-◌, ◌%◌, ◌^◌, List, [], ◌∷◌, ◌++◌, Bool, true, false, ltb, ◌==◌, if◌then◌else◌,
}
use cortex_forge_driver.Errno.{ok}
use cortex_forge_driver.Kernel.{Clock}
use cortex_forge_driver.Task.{TaskState, running, complete, elapsed}
use cortex_forge_driver.Device.{Dev, accel_at, task_of, set_task, set_accel}

pub data Pc : Type 0 where
  testing : Pc  -- `while (atomic_read(&accel->running))`
  waiting : Pc  -- wait_event_interruptible_timeout
  woken : Pc  -- `if (!atomic_read(&accel->running))`
  locking : Pc  -- the first section under the mutex
  starting : ℕ → Pc  -- `task->state = TASK_STATE_RUNNING`
  loading : ℕ → Pc  -- `load_percent = min(100U, load_percent + 10)`
  timing : ℕ → Pc  -- `if (task->timeout_ms > 0)`
  spinning : ℕ → (start timeout : ℕ) → Pc  -- the test of the inner loop
  napping : ℕ → (start timeout : ℕ) → Pc  -- after msleep(1), `kthread_should_stop()`
  sleeping : ℕ → Pc  -- msleep(10)
  stamping : ℕ → Pc  -- `complete_jiffies = jiffies`
  completing : ℕ → Pc  -- `state = TASK_STATE_COMPLETE`
  clearing : ℕ → Pc  -- `error_code = 0`
  unloading : ℕ → Pc  -- `load_percent = max(0, (int) load_percent - 10)`
  signalling : ℕ → Pc  -- complete_all
  unlinking : ℕ → Pc  -- the last section under the mutex
  exited : Pc

-- What the kernel answers at a step: the jiffies, and kthread_should_stop.
pub record Moment : Type 0 where
  pub now : ℕ
  pub should_stop : Bool

-- list_del of a slot from the list that it is on.
abbrev pub list_del : ℕ → List ℕ → List ℕ
list_del i [] = []
list_del i (j ∷ js) = if j == i then js else j ∷ list_del i js

abbrev pub is_running : TaskState → Bool
is_running running = true
is_running _ = false

-- min(100U, load + 10), and max(0, (int) load - 10) stored in a u32: the subtraction wraps around for
-- the ten least negative patterns from 2 ^ 31 on.
abbrev pub raise_load : ℕ → ℕ
raise_load load = let more : ℕ = (load + 10) % 2 ^ 32 in if ltb 100 more then 100 else more

abbrev pub lower_load : ℕ → ℕ
lower_load load = if ltb load (2 ^ 31 + 10) then load - 10 else 0

-- The first section under the mutex: the head of the queue, if any, becomes active.
unfoldable pub take_head : Dev → ℕ → List ℕ → Dev × Pc
take_head d a [] = (d, testing)
take_head d a (i ∷ rest) = (
  set_accel d a (λ x. record x { task_queue = rest; active_tasks = x.active_tasks ++ i ∷ [] }),
  starting i,
)

module _ (clock : Clock) where
  unfoldable pub worker_step : Moment → Dev → ℕ → Pc → Dev × Pc
  unfolding take_head
  worker_step e d a testing = (d, if (accel_at d a).running then waiting else exited)
  worker_step e d a waiting = (d, woken)
  worker_step e d a woken = (d, if (accel_at d a).running then locking else exited)
  worker_step e d a locking = take_head d a (accel_at d a).task_queue
  worker_step e d a (starting i) = (set_task d i (λ t. record t { state = running }), loading i)
  worker_step e d a (loading i) =
      (set_accel d a (λ x. record x { load_percent = raise_load x.load_percent }), timing i)
  worker_step e d a (timing i) = (
    d,
    if ltb 0 (task_of d i).timeout_ms
        then spinning i e.now (clock.msecs_to_jiffies (task_of d i).timeout_ms)
        else sleeping i,
  )
  worker_step e d a (spinning i start timeout) = (
    d,
    if ltb (elapsed e.now start) timeout
        then (if is_running (task_of d i).state then napping i start timeout else stamping i)
        else stamping i,
  )
  worker_step e d a (napping i start timeout) =
      (d, if e.should_stop then stamping i else spinning i start timeout)
  worker_step e d a (sleeping i) = (d, stamping i)
  worker_step e d a (stamping i) =
      (set_task d i (λ t. record t { complete_jiffies = e.now }), completing i)
  worker_step e d a (completing i) = (set_task d i (λ t. record t { state = complete }), clearing i)
  worker_step e d a (clearing i) = (set_task d i (λ t. record t { error_code = ok }), unloading i)
  worker_step e d a (unloading i) =
      (set_accel d a (λ x. record x { load_percent = lower_load x.load_percent }), signalling i)
  worker_step e d a (signalling i) = (set_task d i (λ t. record t { done = true }), unlinking i)
  worker_step e d a (unlinking i) =
      (set_accel d a (λ x. record x { active_tasks = list_del i x.active_tasks }), testing)
  worker_step e d a exited = (d, exited)
