-- ===== src/Task.antt =====
-- include/cortex_forge_task.h and src/task_manager.c: the task slots and the pool that holds them.
-- A task pointer is the index of its slot in `tasks`; the intrusive lists are lists of such indices.
-- `Pool` holds the three fields of the device that these functions are passed.
pub mod Lookup
pub mod Slots
pub mod Issue
pub mod Reuse
use cortex_forge_driver.Base.{
  ℕ, zero, suc, ◌+◌, ◌-◌, ◌*◌, ◌/◌, ◌%◌, ◌^◌, List, [], ◌∷◌, ◌++◌, Option, none, some, Bool, true,
  false, ◌&&◌, ◌==◌, if◌then◌else◌, length, get_or, modify, replicate, ◌≡◌, refl,
}
use cortex_forge_driver.Errno.{Ret, ok, fail, enoent, efault, ecanceled}
use cortex_forge_driver.Uapi.{TaskStatus}
use cortex_forge_driver.Kernel.{UserMemory, Clock, task_status}

abbrev pub max_tasks : ℕ
max_tasks = 256

pub data TaskState : Type 0 where
  free pending running complete failed cancelled : TaskState

-- The enumerators' values.
unfoldable pub state_code : TaskState → ℕ
state_code free = 0
state_code pending = 1
state_code running = 2
state_code complete = 3
state_code failed = 4
state_code cancelled = 5

-- `entry` is the slot's place in a list; `done` is whether the completion has been signalled to all.
pub record Task : Type 0 where
  pub id : ℕ
  pub state : TaskState
  pub accel_type : ℕ
  pub priority : ℕ
  pub input_addr : ℕ
  pub input_size : ℕ
  pub output_addr : ℕ
  pub output_size : ℕ
  pub timeout_ms : ℕ
  pub submit_jiffies : ℕ
  pub complete_jiffies : ℕ
  pub error_code : Ret
  pub done : Bool

-- A slot of zero bytes.
abbrev pub zero_task : Task
zero_task = record {
  id = 0;
  state = free;
  accel_type = 0;
  priority = 0;
  input_addr = 0;
  input_size = 0;
  output_addr = 0;
  output_size = 0;
  timeout_ms = 0;
  submit_jiffies = 0;
  complete_jiffies = 0;
  error_code = ok;
  done = false;
}

-- `next_task_id` is the bit pattern of the 32-bit counter.
pub record Pool : Type 0 where
  pub tasks : List Task
  pub free_tasks : List ℕ
  pub next_task_id : ℕ

-- The pool of a zeroed device.
abbrev pub zero_pool : Pool
zero_pool = record { tasks = replicate max_tasks zero_task; free_tasks = []; next_task_id = 0 }

abbrev pub task_at : Pool → ℕ → Task
task_at p i = get_or p.tasks i zero_task

-- A write through a task pointer.
abbrev pub update_task : Pool → ℕ → (Task → Task) → Pool
update_task p i f = record p { tasks = modify p.tasks i f }

-- The loop of task_pool_init from index `i` on, with `n` rounds left.
unfoldable pub init_from : ℕ → ℕ → Pool → Pool
init_from zero i p = p
init_from (suc n) i p = init_from n (suc i) (record p {
  tasks = modify p.tasks i (λ t. record t { state = free; done = false });
  free_tasks = p.free_tasks ++ i ∷ [];
})

unfoldable pub task_pool_init : Pool → Pool
unfolding init_from
task_pool_init p = init_from max_tasks 0 p

unfoldable pub alloc_head : Pool → List ℕ → Option ℕ × Pool
alloc_head p [] = (none, p)
alloc_head p (i ∷ rest) =
    let next : ℕ = (p.next_task_id + 1) % 2 ^ 32 in
    (
      some i,
      record {
        tasks = modify p.tasks i (λ _. record zero_task { id = next });
        free_tasks = rest;
        next_task_id = next;
      },
    )

unfoldable pub task_alloc : Pool → Option ℕ × Pool
unfolding alloc_head
task_alloc p = alloc_head p p.free_tasks

unfoldable pub task_free : Pool → ℕ → Pool
task_free p i = record p {
  tasks = modify p.tasks i (λ t. record t { state = free });
  free_tasks = p.free_tasks ++ i ∷ [];
}

abbrev pub is_used : TaskState → Bool
is_used free = false
is_used _ = true

-- The test of the loops of task_query and task_cancel.
abbrev pub matches : ℕ → Task → Bool
matches task_id t = t.id == task_id && is_used t.state

-- The loop of task_query up to its hit.
unfoldable pub find_task : ℕ → List Task → Option Task
find_task task_id [] = none
find_task task_id (t ∷ ts) = if matches task_id t then some t else find_task task_id ts

-- The wrapped difference of two 64-bit jiffies values.
abbrev pub elapsed : ℕ → ℕ → ℕ
elapsed later earlier = (later + 2 ^ 64 - earlier) % 2 ^ 64

unfoldable pub status_of : Clock → Task → TaskStatus
unfolding state_code
status_of clock t = record {
  task_id = t.id;
  status = state_code t.state;
  exec_usec = elapsed t.complete_jiffies t.submit_jiffies * 1000000 % 2 ^ 64 / clock.hz;
  error_code = t.error_code;
  reserved = 0 ∷ 0 ∷ 0 ∷ [];
}

abbrev pub cancel_task : Task → Task
cancel_task t = record t { state = cancelled; error_code = fail ecanceled; done = true }

-- The loop of task_cancel.
unfoldable pub task_cancel : ℕ → List Task → Ret × List Task
task_cancel task_id [] = (fail enoent, [])
task_cancel task_id (t ∷ ts) =
    let (ret, ts') = task_cancel task_id ts in
    if matches task_id t then (ok, cancel_task t ∷ ts) else (ret, t ∷ ts')

module _ (user : UserMemory) (clock : Clock) where
  open user use {Mem, copy_to_user}

  abbrev pub copied : Bool × Mem → Ret × Mem
  copied (fault, m) = (if fault then fail efault else ok, m)

  unfoldable pub task_query : List Task → ℕ → Mem → ℕ → Ret × Mem
  unfolding find_task status_of
  task_query tasks task_id m ustatus = elim (find_task task_id tasks) [
    | none ↦ (fail enoent, m)
    | some t ↦ copied (copy_to_user task_status m ustatus (status_of clock t))
  ]
