-- ===== src/SingleFile.antt =====
-- src/cortex_forge_main.c, the driver in one file, which the build does not compile: its task functions,
-- which take the device where those of src/task_manager.c take parts of it. The structures are the same
-- as those of the headers.
pub mod Ioctl
pub mod Loops
pub mod Same
pub mod Start
pub mod Thread
pub mod Setup
pub mod Whole
pub mod Probe
pub mod Unbind
use cortex_forge_driver.Base.{
  true, ◌&&◌, ◌==◌, ℕ, zero, suc, ◌+◌, ◌%◌, ◌^◌, List, [], ◌∷◌, ◌++◌, Option, none, some, leb,
  if◌then◌else◌, modify,
}
use cortex_forge_driver.Errno.{ecanceled, Ret, ok, fail, einval, enoent}
use cortex_forge_driver.Kernel.{UserMemory, Clock, task_status}
use cortex_forge_driver.Task.{
  cancelled, is_used, free, zero_task, max_tasks, matches, status_of, cancel_task, copied,
}
use cortex_forge_driver.Device.{Dev, task_of, set_task, set_accel, enqueue, make_pending}

unfoldable pub alloc_first : Dev → List ℕ → Option ℕ × Dev
alloc_first dev [] = (none, dev)
alloc_first dev (i ∷ rest) =
    let next : ℕ = (dev.pool.next_task_id + 1) % 2 ^ 32 in
    (
      some i,
      record dev {
        pool = record {
          tasks = modify dev.pool.tasks i (λ _. record zero_task { id = next });
          free_tasks = rest;
          next_task_id = next;
        };
      },
    )

unfoldable pub task_alloc : Dev → Option ℕ × Dev
unfolding alloc_first
task_alloc dev = alloc_first dev dev.pool.free_tasks

unfoldable pub task_free : Dev → ℕ → Dev
task_free dev i = record dev {
  pool = record dev.pool {
    tasks = modify dev.pool.tasks i (λ t. record t { state = free });
    free_tasks = dev.pool.free_tasks ++ i ∷ [];
  };
}

-- The accelerator is that of the task.
unfoldable pub task_submit : Dev → ℕ → ℕ → Ret × Dev
task_submit dev i now =
    if leb 3 (task_of dev i).accel_type
    then (fail einval, dev)
    else (ok, set_accel (set_task dev i (make_pending now)) (task_of dev i).accel_type (enqueue i))

-- The loop of task_cancel at index `i`, with a number of rounds left.
unfoldable pub cancel_loop : ℕ → ℕ → ℕ → Dev → Ret × Dev
cancel_loop task_id zero i dev = (fail enoent, dev)
cancel_loop task_id (suc rounds) i dev =
    let later = cancel_loop task_id rounds (suc i) dev in
    if (task_of dev i).id == task_id && is_used (task_of dev i).state
    then (
      ok,
      set_task dev i
          (λ t. record t { state = cancelled; error_code = fail ecanceled; done = true }),
    )
    else later

unfoldable pub task_cancel : Dev → ℕ → Ret × Dev
unfolding cancel_loop
task_cancel dev task_id = cancel_loop task_id max_tasks 0 dev

module _ (user : UserMemory) (clock : Clock) where
  open user use {Mem, copy_to_user}

  -- The loop of task_query at index `i`, with a number of rounds left.
  unfoldable pub query_loop : ℕ → Mem → ℕ → ℕ → ℕ → Dev → Ret × Mem
  query_loop task_id m ustatus zero i dev = (fail enoent, m)
  query_loop task_id m ustatus (suc rounds) i dev =
      let later = query_loop task_id m ustatus rounds (suc i) dev in
      if matches task_id (task_of dev i)
      then copied user clock (copy_to_user task_status m ustatus (status_of clock (task_of dev i)))
      else later

  unfoldable pub task_query : Dev → ℕ → Mem → ℕ → Ret × Mem
  unfolding query_loop
  task_query dev task_id m ustatus = query_loop task_id m ustatus max_tasks 0 dev
