-- ===== src/Chardev.antt =====
-- src/chardev.c: the ioctl handler. A handler returns its result, the device and the user memory. open
-- and release are in Files.
pub mod Spec
pub mod Cases
pub mod Submit
pub mod Frame
pub mod Dispatch
pub mod Errors
pub mod Change
pub mod Fault
pub mod Files
pub mod Calls
use cortex_forge_driver.Base.{
  ℕ, ◌+◌, ◌*◌, List, [], ◌∷◌, Option, none, some, Bool, leb, ltb, ◌==◌, if◌then◌else◌,
}
use cortex_forge_driver.Errno.{Ret, ok, fail, efault, einval, e2big, enomem, enotty}
use cortex_forge_driver.Uapi.{TaskDesc, TaskStatus, AccelInfo, ProfileMetrics}
use cortex_forge_driver.Uapi.Ioctl.{IoctlAbi}
use cortex_forge_driver.Uapi.Ioctl
use cortex_forge_driver.Kernel.{
  UserMemory, Clock, task_desc, task_status, accel_info, profile_metrics, u32,
}
use cortex_forge_driver.Task.{
  Task, Pool, update_task, task_alloc, task_free, task_query, task_cancel,
}
use cortex_forge_driver.Accel.{num_accelerators, accel_get_info}
use cortex_forge_driver.Device.{Dev, accel_at, task_of, set_task, task_submit}

abbrev pub max_size : ℕ
max_size = 64 * 1024 * 1024

-- The fields that the handler copies from the descriptor.
abbrev pub fill : TaskDesc → Task → Task
fill desc t = record t {
  accel_type = desc.accel_type;
  priority = desc.priority;
  input_addr = desc.input_addr;
  input_size = desc.input_size;
  output_addr = desc.output_addr;
  output_size = desc.output_size;
  timeout_ms = desc.timeout_ms;
}

abbrev pub with_pool : Dev → Pool → Dev
with_pool d p = record d { pool = p }

module _ (user : UserMemory) (clock : Clock) (abi : IoctlAbi) where
  open user use {Mem, copy_from_user, copy_to_user}

  abbrev pub Outcome : Type 0
  Outcome = Ret × Dev × Mem

  -- The end of a handler that copies its answer out.
  abbrev pub copied_out : Dev → Bool × Mem → Outcome
  copied_out d (fault, m) = (if fault then fail efault else ok, d, m)

  abbrev pub submitted : ℕ → TaskDesc → Mem → ℕ → Ret × Dev → Outcome
  submitted i desc m uarg (ok, d) =
      copied_out d (copy_to_user task_desc m uarg (record desc { task_id = (task_of d i).id }))
  submitted i desc m uarg (fail e, d) = (fail e, with_pool d (task_free d.pool i), m)

  -- From task_alloc's answer on.
  unfoldable pub submit_allocated : Dev → TaskDesc → Mem → ℕ → ℕ → Option ℕ × Pool → Outcome
  submit_allocated d desc m uarg now (none, p) = (fail enomem, with_pool d p, m)
  submit_allocated d desc m uarg now (some i, p) =
      submitted i desc m uarg
        (task_submit (set_task (with_pool d p) i (fill desc)) i desc.accel_type now)

  unfoldable pub submit_desc : Dev → TaskDesc → Mem → ℕ → ℕ → Outcome
  unfolding submit_allocated
  submit_desc d desc m uarg now =
      if leb num_accelerators desc.accel_type
      then (fail einval, d, m)
      else if desc.flags == 0
      then if ltb max_size desc.input_size
        then (fail e2big, d, m)
        else if ltb max_size desc.output_size
        then (fail e2big, d, m)
        else submit_allocated d desc m uarg now (task_alloc d.pool)
      else (fail einval, d, m)

  unfoldable pub ioctl_submit_task : Dev → Mem → ℕ → ℕ → Outcome
  unfolding submit_desc
  ioctl_submit_task d m uarg now = elim (copy_from_user task_desc m uarg) [
    | none ↦ (fail efault, d, m)
    | some desc ↦ submit_desc d desc m uarg now
  ]

  unfoldable pub ioctl_query_task : Dev → Mem → ℕ → Outcome
  ioctl_query_task d m uarg = elim (copy_from_user task_status m uarg) [
    | none ↦ (fail efault, d, m)
    | some status ↦
        let (ret, m') = task_query user clock d.pool.tasks status.task_id m uarg in (ret, d, m')
  ]

  unfoldable pub ioctl_cancel_task : Dev → Mem → ℕ → Outcome
  ioctl_cancel_task d m uarg = elim (copy_from_user u32 m uarg) [
    | none ↦ (fail efault, d, m)
    | some task_id ↦
        let (ret, tasks') = task_cancel task_id d.pool.tasks in
        (ret, with_pool d (record d.pool { tasks = tasks' }), m)
  ]

  unfoldable pub ioctl_get_accel_info : Dev → Mem → ℕ → Outcome
  unfolding accel_get_info
  ioctl_get_accel_info d m uarg = elim (copy_from_user accel_info m uarg) [
    | none ↦ (fail efault, d, m)
    | some info ↦
        if leb num_accelerators info.accel_type
        then (fail einval, d, m)
        else copied_out d
            (copy_to_user accel_info m uarg (accel_get_info (accel_at d info.accel_type) info))
  ]

  -- The handler only logs the mode.
  unfoldable pub ioctl_set_power : Dev → Mem → ℕ → Outcome
  ioctl_set_power d m uarg = elim (copy_from_user u32 m uarg) [
    | none ↦ (fail efault, d, m)
    | some mode ↦ (if ltb 2 mode then fail einval else ok, d, m)
  ]

  abbrev pub version : ℕ
  version = 0x00010000

  unfoldable pub ioctl_get_version : Dev → Mem → ℕ → Outcome
  ioctl_get_version d m uarg = copied_out d (copy_to_user u32 m uarg version)

  abbrev pub profile : ProfileMetrics
  profile = record {
    compute_us = 1000;
    memory_us = 500;
    storage_us = 200;
    network_us = 300;
    thermal_celsius = 45;
    power_mw = 15000;
    reserved = 0 ∷ 0 ∷ 0 ∷ 0 ∷ [];
  }

  unfoldable pub ioctl_get_profile : Dev → Mem → ℕ → Outcome
  ioctl_get_profile d m uarg = copied_out d (copy_to_user profile_metrics m uarg profile)

  -- The handler only logs the choice.
  unfoldable pub ioctl_set_accel : Dev → Mem → ℕ → Outcome
  ioctl_set_accel d m uarg = elim (copy_from_user u32 m uarg) [
    | none ↦ (fail efault, d, m)
    | some accel ↦ (if ltb 4 accel then fail einval else ok, d, m)
  ]

  -- cortex_forge_ioctl(filp, cmd, uarg) at jiffies `now`.
  unfoldable pub cortex_forge_ioctl : Dev → ℕ → Mem → ℕ → ℕ → Outcome
  cortex_forge_ioctl d cmd m uarg now =
      if cmd == Ioctl.submit_task abi
      then ioctl_submit_task d m uarg now
      else if cmd == Ioctl.query_task abi
      then ioctl_query_task d m uarg
      else if cmd == Ioctl.cancel_task abi
      then ioctl_cancel_task d m uarg
      else if cmd == Ioctl.get_accel_info abi
      then ioctl_get_accel_info d m uarg
      else if cmd == Ioctl.set_power abi
      then ioctl_set_power d m uarg
      else if cmd == Ioctl.get_version abi
      then ioctl_get_version d m uarg
      else if cmd == Ioctl.get_profile abi
      then ioctl_get_profile d m uarg
      else if cmd == Ioctl.set_accel abi
      then ioctl_set_accel d m uarg
      else (fail enotty, d, m)
