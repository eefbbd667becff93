-- ===== src/Concurrent.antt =====
-- src/chardev.c, src/task_manager.c: submissions and cancellations that are under way at the same time.
-- The submit handler holds a lock only in task_alloc and around list_add_tail, and task_cancel holds
-- none, so here a call is a program counter that moves by one access to shared state at a time, as the
-- workers do, and there are any number of callers. `place`,
-- `caller` and `answers` are histories that the program does not keep: where a slot is, which caller got
-- it, and the ids that the callers have found in their descriptors after a submission that returned 0,
-- the latest first.
pub mod Owned
pub mod Sound
pub mod Slots
pub mod Callers
pub mod Workers
pub mod Steps
pub mod Apart
pub mod Answers
pub mod Alone
pub mod Torn
pub mod Scan
use cortex_forge_driver.Base.{
  Bool, zero, suc, true, ◌+◌, ℕ, ◌<◌, List, [], ◌∷◌, Option, none, some, write, ◌≡◌, leb, ltb, ◌==◌,
  if◌then◌else◌,
}
use cortex_forge_driver.Errno.{ecanceled, enoent, Ret, ok, fail, einval, e2big, enomem, efault}
use cortex_forge_driver.Uapi.{TaskDesc}
use cortex_forge_driver.Uapi.Ioctl.{IoctlAbi}
use cortex_forge_driver.Kernel.{UserMemory, Clock, task_desc}
use cortex_forge_driver.Task.{cancelled, matches, max_tasks, Pool, pending, task_alloc, task_free}
use cortex_forge_driver.Accel.{num_accelerators}
use cortex_forge_driver.Device.{
  Dev, task_of, set_task, set_accel, enqueue, zero_dev, init_device, accel_at,
}
use cortex_forge_driver.Chardev.{max_size, fill, with_pool, ioctl_cancel_task}
use cortex_forge_driver.Worker.{Pc, testing, locking, Moment, worker_step}

-- Where a caller is in the handler of a submission or a cancellation, with its local variables.
pub data Call : Type 0 where
  returned : Ret → Call  -- outside the handler, after a call that returned this
  filling : ℕ → TaskDesc → Call  -- `task->accel_type = desc.accel_type` and the fields after it
  submitting : ℕ → TaskDesc → Call  -- the test of task_submit and `task->state = TASK_STATE_PENDING`
  dating : ℕ → TaskDesc → Call  -- `task->submit_jiffies = jiffies`
  adding : ℕ → TaskDesc → Call  -- list_add_tail under the mutex
  answering : ℕ → TaskDesc → Call  -- `desc.task_id = task->id` and the copy of it
  scanning : (task_id i : ℕ) → Call  -- the test of task_cancel's loop at slot `i`
  marking : ℕ → Call  -- `task->state = TASK_STATE_CANCELLED`
  blaming : ℕ → Call  -- `task->error_code = -ECANCELED`
  waking : ℕ → Call  -- complete_all

-- After task_alloc.
unfoldable pub got : Dev → TaskDesc → Option ℕ × Pool → Dev × Call
got d desc (none, p) = (with_pool d p, returned (fail enomem))
got d desc (some i, p) = (with_pool d p, filling i desc)

-- The checks of the descriptor that has been read, and task_alloc.
unfoldable pub begin : Dev → TaskDesc → Dev × Call
unfolding got
begin d desc =
    if leb num_accelerators desc.accel_type
    then (d, returned (fail einval))
    else if desc.flags == 0
    then if ltb max_size desc.input_size
      then (d, returned (fail e2big))
      else if ltb max_size desc.output_size
      then (d, returned (fail e2big))
      else got d desc (task_alloc d.pool)
    else (d, returned (fail einval))

-- The test and the first write of task_submit; when it fails the handler frees the slot and returns.
abbrev pub start_submit : Dev → ℕ → TaskDesc → Dev × Call
start_submit d i desc =
    if leb num_accelerators (task_of d i).accel_type
    then (with_pool d (task_free d.pool i), returned (fail einval))
    else (set_task d i (λ t. record t { state = pending }), dating i desc)

-- The test of task_cancel's loop, and its three writes.
abbrev pub test_slot : Dev → (task_id i : ℕ) → Call
test_slot d task_id i =
    if ltb i max_tasks
    then (if matches task_id (task_of d i) then marking i else scanning task_id (i + 1))
    else returned (fail enoent)

abbrev pub mark : Dev → ℕ → Dev
mark d i = set_task d i (λ t. record t { state = cancelled })

abbrev pub blame : Dev → ℕ → Dev
blame d i = set_task d i (λ t. record t { error_code = fail ecanceled })

abbrev pub wake : Dev → ℕ → Dev
wake d i = set_task d i (λ t. record t { done = true })

module _ (user : UserMemory) where
  open user use {Mem, copy_from_user, copy_to_user}

  -- The end of a submission, whose answer has been copied out.
  abbrev pub answered : Dev → Bool × Mem → Dev × Call × Mem
  answered d (fault, m) = (d, returned (if fault then fail efault else ok), m)

  -- The memory is the caller's. The writes of the descriptor's fields, to a slot that is free and that no
  -- other has got, are one move.
  unfoldable pub call_step : Mem → (uarg now : ℕ) → Dev → Call → Dev × Call × Mem
  call_step m uarg now d (returned ret) = (d, returned ret, m)
  call_step m uarg now d (filling i desc) = (set_task d i (fill desc), submitting i desc, m)
  call_step m uarg now d (submitting i desc) = let (d', k) = start_submit d i desc in (d', k, m)
  call_step m uarg now d (dating i desc) =
      (set_task d i (λ t. record t { submit_jiffies = now }), adding i desc, m)
  call_step m uarg now d (adding i desc) =
      (set_accel d desc.accel_type (enqueue i), answering i desc, m)
  call_step m uarg now d (answering i desc) =
      answered d (copy_to_user task_desc m uarg (record desc { task_id = (task_of d i).id }))
  call_step m uarg now d (scanning task_id i) = (d, test_slot d task_id i, m)
  call_step m uarg now d (marking i) = (mark d i, blaming i, m)
  call_step m uarg now d (blaming i) = (blame d i, waking i, m)
  call_step m uarg now d (waking i) = (wake d i, returned ok, m)

  -- That many moves of one caller, with none of another between.
  abbrev pub call_steps : (uarg now n : ℕ) → Dev × Call × Mem → Dev × Call × Mem
  call_steps uarg now zero s = s
  call_steps uarg now (suc n) (d, k, m) = call_steps uarg now n (call_step m uarg now d k)

pub data Place : Type 0 where
  unissued : Place  -- on the free list
  calling : Place  -- got by a caller that has not queued it
  queued : ℕ → Place  -- on the queue of an accelerator
  working : ℕ → Place  -- taken by the worker of an accelerator

pub record Race : Type 0 where
  pub dev : Dev
  pub pc : ℕ → Pc
  pub calls : ℕ → Call
  pub place : ℕ → Place
  pub caller : ℕ → ℕ
  pub answers : List ℕ

-- After a probe that succeeds.
abbrev pub boot : Race
boot = record {
  dev = init_device zero_dev;
  pc = λ _. testing;
  calls = λ _. returned ok;
  place = λ _. unissued;
  caller = λ _. 0;
  answers = [];
}

-- Where the slots are when a call has moved to a place in the handler.
abbrev pub place_of_call : (ℕ → Place) → Call → ℕ → Place
place_of_call place (filling i desc) = write place i calling
place_of_call place (answering i desc) = write place i (queued desc.accel_type)
place_of_call place _ = place

abbrev pub caller_of_call : (ℕ → ℕ) → ℕ → Call → ℕ → ℕ
caller_of_call caller c (filling i desc) = write caller i c
caller_of_call caller c _ = caller

-- Where they are when the worker of `a` has taken the head of its queue.
abbrev pub place_of_head : (ℕ → Place) → ℕ → List ℕ → ℕ → Place
place_of_head place a [] = place
place_of_head place a (i ∷ rest) = write place i (working a)

abbrev pub place_of_work : (ℕ → Place) → Dev → ℕ → Pc → ℕ → Place
place_of_work place d a locking = place_of_head place a (accel_at d a).task_queue
place_of_work place d a _ = place

-- Caller `c` has moved.
abbrev pub after_call : Race → ℕ → Dev × Call → Race
after_call s c (d, k) = record s {
  dev = d;
  calls = write s.calls c k;
  place = place_of_call s.place k;
  caller = caller_of_call s.caller c k;
}

-- What a caller that moves from a place to another finds at its argument, if it is an answer.
abbrev pub heard : Call → Call → Option TaskDesc → List ℕ → List ℕ
heard (answering i desc) (returned ok) (some found) answers = found.task_id ∷ answers
heard _ _ _ answers = answers

module _ (user : UserMemory) (clock : Clock) where
  open user use {Mem, copy_from_user}

  abbrev pub after_move : Race → (c : ℕ) → Mem → (uarg now : ℕ) → Race
  after_move s c m uarg now =
      let (d, k, m') = call_step user m uarg now s.dev (s.calls c) in
      record (after_call s c (d, k)) {
        answers = heard (s.calls c) k (copy_from_user task_desc m' uarg) s.answers;
      }

  abbrev pub after_work : Race → ℕ → Moment → Race
  after_work s a e =
      let (d, p) = worker_step clock e s.dev a (s.pc a) in
      record s { dev = d; pc = write s.pc a p; place = place_of_work s.place s.dev a (s.pc a) }

  -- A caller outside the handler begins a submission or a cancellation, a caller inside moves on, or a
  -- worker moves. The other commands leave the device as it is.
  pub data Step (s t : Race) : Type 0 where
    submit :
        (c : ℕ) (ret : Ret) (desc : TaskDesc)
        → s.calls c ≡ returned ret
        → t ≡ after_call s c (begin s.dev desc)
        → Step s t
    cancel :
        (c : ℕ) (ret : Ret) (task_id : ℕ)
        → s.calls c ≡ returned ret
        → t ≡ after_call s c (s.dev, scanning task_id 0)
        → Step s t
    move : (c : ℕ) (m : Mem) (uarg now : ℕ) → t ≡ after_move s c m uarg now → Step s t
    work : (a : ℕ) (e : Moment) → a < num_accelerators → t ≡ after_work s a e → Step s t

  pub data Reach : Race → Type 0 where
    start : Reach boot
    later : {s t : Race} → Reach s → Step s t → Reach t
