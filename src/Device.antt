-- ===== src/Device.antt =====
-- include/cortex_forge_dev.h: the device, and task_submit of src/task_manager.c, which moves a task
-- of its pool to the queue of one of its accelerators. The pointers to kernel objects that the device
-- also holds are in Probe.antt.
use cortex_forge_driver.Base.{ℕ, List, [], ◌∷◌, ◌++◌, get_or, modify, leb, if◌then◌else◌}
use cortex_forge_driver.Errno.{Ret, ok, fail, einval}
use cortex_forge_driver.Task.{Pool, Task, pending, task_at, update_task, task_pool_init, zero_pool}
use cortex_forge_driver.Accel.{Accel, zero_accel, num_accelerators, accel_init}

pub record Dev : Type 0 where
  pub pool : Pool
  pub accelerators : List Accel

abbrev pub accel_at : Dev → ℕ → Accel
accel_at d a = get_or d.accelerators a zero_accel

abbrev pub task_of : Dev → ℕ → Task
task_of d i = task_at d.pool i

abbrev pub set_task : Dev → ℕ → (Task → Task) → Dev
set_task d i f = record d { pool = update_task d.pool i f }

abbrev pub set_accel : Dev → ℕ → (Accel → Accel) → Dev
set_accel d a f = record d { accelerators = modify d.accelerators a f }

abbrev pub enqueue : ℕ → Accel → Accel
enqueue i a = record a { task_queue = a.task_queue ++ i ∷ [] }

abbrev pub make_pending : ℕ → Task → Task
make_pending now t = record t { state = pending; submit_jiffies = now }

-- task_submit(&tasks[i], &accelerators[a]) at jiffies `now`.
unfoldable pub task_submit : Dev → ℕ → ℕ → ℕ → Ret × Dev
task_submit d i a now =
    if leb num_accelerators (task_of d i).accel_type
    then (fail einval, d)
    else (ok, set_accel (set_task d i (make_pending now)) a (enqueue i))

-- The device that cortex_forge_probe allocates zeroed.
abbrev pub zero_dev : Dev
zero_dev = record { pool = zero_pool; accelerators = zero_accel ∷ zero_accel ∷ zero_accel ∷ [] }

-- "nvdla0", "nvdla1" and "pva0".
abbrev pub nvdla0 : List ℕ
nvdla0 = b'n' ∷ b'v' ∷ b'd' ∷ b'l' ∷ b'a' ∷ b'0' ∷ []

abbrev pub nvdla1 : List ℕ
nvdla1 = b'n' ∷ b'v' ∷ b'd' ∷ b'l' ∷ b'a' ∷ b'1' ∷ []

abbrev pub pva0 : List ℕ
pva0 = b'p' ∷ b'v' ∷ b'a' ∷ b'0' ∷ []

-- The pool and the accelerators as cortex_forge_probe sets them up.
unfoldable pub init_device : Dev → Dev
init_device d = record {
  pool = task_pool_init (record d.pool { free_tasks = []; next_task_id = 0 });
  accelerators =
      modify
        (modify (modify d.accelerators 0 (λ a. accel_init a 0 nvdla0)) 1
          (λ a. accel_init a 1 nvdla1))
        2 (λ a. accel_init a 2 pva0);
}
