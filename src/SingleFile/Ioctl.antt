-- ===== src/SingleFile/Ioctl.antt =====
-- The ioctl handler of src/cortex_forge_main.c, a function for each case of its switch.
use cortex_forge_driver.Base.{
  ℕ, ◌*◌, [], ◌∷◌, Option, none, some, Bool, leb, ltb, ◌==◌, if◌then◌else◌,
}
use cortex_forge_driver.Errno.{Ret, ok, fail, efault, einval, e2big, enomem, enotty}
use cortex_forge_driver.Uapi.{TaskDesc, AccelInfo}
use cortex_forge_driver.Uapi.Ioctl.{IoctlAbi}
use cortex_forge_driver.Uapi.Ioctl
use cortex_forge_driver.Kernel.{
  UserMemory, Clock, task_desc, task_status, accel_info, profile_metrics, u32,
}
use cortex_forge_driver.Task.{Task}
use cortex_forge_driver.Accel.{Accel}
use cortex_forge_driver.Device.{Dev, accel_at, task_of, set_task}
use cortex_forge_driver.SingleFile.{task_alloc, task_free, task_submit, task_query, task_cancel}

-- The fields that the case of a submission copies from the descriptor.
abbrev pub copy_desc : TaskDesc → Task → Task
copy_desc desc t = record t {
  accel_type = desc.accel_type;
  priority = desc.priority;
  input_addr = desc.input_addr;
  input_size = desc.input_size;
  output_addr = desc.output_addr;
  output_size = desc.output_size;
  timeout_ms = desc.timeout_ms;
}

-- The fields that the case of an information request copies from the accelerator.
abbrev pub copy_info : Accel → AccelInfo → AccelInfo
copy_info accel info = record info {
  freq_hz = accel.freq_hz;
  temp_celsius = accel.temp_celsius;
  load_percent = accel.load_percent;
  fw_version = accel.fw_version;
  hw_version = accel.hw_version;
  mem_total = accel.mem_total;
  mem_free = accel.mem_free;
  state = accel.state;
}

module _ (user : UserMemory) (clock : Clock) (abi : IoctlAbi) where
  open user use {Mem, copy_from_user, copy_to_user}

  abbrev pub stored : Dev → Bool × Mem → Ret × Dev × Mem
  stored dev (fault, m) = (if fault then fail efault else ok, dev, m)

  -- From task_submit's answer on.
  abbrev pub case_submitted : ℕ → TaskDesc → Mem → ℕ → Ret × Dev → Ret × Dev × Mem
  case_submitted i desc m uarg (ok, dev) =
      stored dev (copy_to_user task_desc m uarg (record desc { task_id = (task_of dev i).id }))
  case_submitted i desc m uarg (fail e, dev) = (fail e, task_free dev i, m)

  -- From task_alloc's answer on.
  abbrev pub case_allocated : TaskDesc → Mem → ℕ → ℕ → Option ℕ × Dev → Ret × Dev × Mem
  case_allocated desc m uarg now (none, dev) = (fail enomem, dev, m)
  case_allocated desc m uarg now (some i, dev) =
      case_submitted i desc m uarg (task_submit (set_task dev i (copy_desc desc)) i now)

  abbrev pub case_desc : Dev → TaskDesc → Mem → ℕ → ℕ → Ret × Dev × Mem
  case_desc dev desc m uarg now =
      if leb 3 desc.accel_type
      then (fail einval, dev, m)
      else if desc.flags == 0
      then if ltb (64 * 1024 * 1024) desc.input_size
        then (fail e2big, dev, m)
        else if ltb (64 * 1024 * 1024) desc.output_size
        then (fail e2big, dev, m)
        else case_allocated desc m uarg now (task_alloc dev)
      else (fail einval, dev, m)

  unfoldable pub case_submit_task : Dev → Mem → ℕ → ℕ → Ret × Dev × Mem
  case_submit_task dev m uarg now = elim (copy_from_user task_desc m uarg) [
    | none ↦ (fail efault, dev, m)
    | some desc ↦ case_desc dev desc m uarg now
  ]

  unfoldable pub case_query_task : Dev → Mem → ℕ → Ret × Dev × Mem
  case_query_task dev m uarg = elim (copy_from_user task_status m uarg) [
    | none ↦ (fail efault, dev, m)
    | some status ↦
        let (ret, m') = task_query user clock dev status.task_id m uarg in (ret, dev, m')
  ]

  unfoldable pub case_cancel_task : Dev → Mem → ℕ → Ret × Dev × Mem
  case_cancel_task dev m uarg = elim (copy_from_user u32 m uarg) [
    | none ↦ (fail efault, dev, m)
    | some task_id ↦ let (ret, dev') = task_cancel dev task_id in (ret, dev', m)
  ]

  unfoldable pub case_get_accel_info : Dev → Mem → ℕ → Ret × Dev × Mem
  case_get_accel_info dev m uarg = elim (copy_from_user accel_info m uarg) [
    | none ↦ (fail efault, dev, m)
    | some info ↦
        if leb 3 info.accel_type
        then (fail einval, dev, m)
        else stored dev
            (copy_to_user accel_info m uarg (copy_info (accel_at dev info.accel_type) info))
  ]

  unfoldable pub case_set_power : Dev → Mem → ℕ → Ret × Dev × Mem
  case_set_power dev m uarg = elim (copy_from_user u32 m uarg) [
    | none ↦ (fail efault, dev, m)
    | some mode ↦ (if ltb 2 mode then fail einval else ok, dev, m)
  ]

  unfoldable pub case_get_version : Dev → Mem → ℕ → Ret × Dev × Mem
  case_get_version dev m uarg = stored dev (copy_to_user u32 m uarg 0x00010000)

  unfoldable pub case_get_profile : Dev → Mem → ℕ → Ret × Dev × Mem
  case_get_profile dev m uarg = stored dev (
      copy_to_user profile_metrics m uarg (record {
        compute_us = 1000;
        memory_us = 500;
        storage_us = 200;
        network_us = 300;
        thermal_celsius = 45;
        power_mw = 15000;
        reserved = 0 ∷ 0 ∷ 0 ∷ 0 ∷ [];
      }))

  unfoldable pub case_set_accel : Dev → Mem → ℕ → Ret × Dev × Mem
  case_set_accel dev m uarg = elim (copy_from_user u32 m uarg) [
    | none ↦ (fail efault, dev, m)
    | some accel ↦ (if ltb 4 accel then fail einval else ok, dev, m)
  ]

  unfoldable pub cortex_forge_ioctl : Dev → ℕ → Mem → ℕ → ℕ → Ret × Dev × Mem
  cortex_forge_ioctl dev cmd m uarg now =
      if cmd == Ioctl.submit_task abi
      then case_submit_task dev m uarg now
      else if cmd == Ioctl.query_task abi
      then case_query_task dev m uarg
      else if cmd == Ioctl.cancel_task abi
      then case_cancel_task dev m uarg
      else if cmd == Ioctl.get_accel_info abi
      then case_get_accel_info dev m uarg
      else if cmd == Ioctl.set_power abi
      then case_set_power dev m uarg
      else if cmd == Ioctl.get_version abi
      then case_get_version dev m uarg
      else if cmd == Ioctl.get_profile abi
      then case_get_profile dev m uarg
      else if cmd == Ioctl.set_accel abi
      then case_set_accel dev m uarg
      else (fail enotty, dev, m)
