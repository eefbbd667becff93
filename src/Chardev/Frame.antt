-- ===== src/Chardev/Frame.antt =====
-- What an ioctl may do to the device: nothing, cancel a task, or accept one.
use cortex_forge_driver.Base.{ℕ, ◌<◌, ◌≡◌, inl, inr, refl, arith, ap, dec_lt, Option-cases}
use cortex_forge_driver.Uapi.{TaskDesc}
use cortex_forge_driver.Uapi.Ioctl.{IoctlAbi}
use cortex_forge_driver.Kernel.{UserMemory, Clock, task_desc, u32}
use cortex_forge_driver.Task.{max_tasks, task_cancel}
use cortex_forge_driver.Task.Slots.{IsInOrder}
use cortex_forge_driver.Device.{Dev}
use cortex_forge_driver.Chardev.{
  with_pool, ioctl_submit_task, ioctl_query_task, ioctl_cancel_task, ioctl_get_accel_info,
  ioctl_set_power, ioctl_get_version, ioctl_get_profile, ioctl_set_accel, cortex_forge_ioctl,
  Outcome,
}
use cortex_forge_driver.Chardev.Submit.{
  IsAcceptable, IsAcceptable-dec, accept, ioctl_submit_task_accepted, ioctl_submit_task_exhausted,
  ioctl_submit_task_rejected,
}
use cortex_forge_driver.Chardev.Cases.{ioctl_cases}

-- The device with the task of id `id`, if there is one, cancelled.
abbrev pub cancel_in : Dev → ℕ → Dev
cancel_in d id = with_pool d (record d.pool { tasks = (task_cancel id d.pool.tasks).1 })

-- At jiffies `now`.
pub data Effect (now : ℕ) (d d' : Dev) : Type 0 where
  unchanged : d' ≡ d → Effect now d d'
  cancels : (id : ℕ) → d' ≡ cancel_in d id → Effect now d d'
  accepts :
      (desc : TaskDesc)
      → IsAcceptable desc
      → d.pool.next_task_id < max_tasks
      → d' ≡ accept d desc now
      → Effect now d d'

module _ (user : UserMemory) (clock : Clock) (abi : IoctlAbi) where
  open user use {Mem, copy_from_user, copy_to_user}

  submit-Effect :
      (d : Dev) (m : Mem) (uarg now : ℕ)
      → IsInOrder d.pool
      → Effect now d (ioctl_submit_task user clock abi d m uarg now).1
  unfolding ioctl_submit_task
  submit-Effect d m uarg now v = elim (Option-cases (copy_from_user task_desc m uarg)) [
    | inl e ↦ unchanged (rw (e, ioctl_submit_task))
    | inr (desc, e) ↦ elim (IsAcceptable-dec desc) [
      | inr bad ↦ unchanged (
          ap (λ (r : Outcome user clock abi). r.1)
            (ioctl_submit_task_rejected user clock abi d m uarg now desc e bad))
      | inl acc ↦ elim (dec_lt d.pool.next_task_id max_tasks) [
        | yes h ↦ accepts desc acc h (
            ap (λ (r : Outcome user clock abi). r.1)
              (ioctl_submit_task_accepted user clock abi d m uarg now desc v e acc h))
        | no h ↦ unchanged (
            ap (λ (r : Outcome user clock abi). r.1)
              (ioctl_submit_task_exhausted user clock abi d m uarg now desc v e acc
                (omega (arith, v.bound))))
      ]
    ]
  ]

  cancel-Effect :
      (d : Dev) (m : Mem) (uarg now : ℕ)
      → Effect now d (ioctl_cancel_task user clock abi d m uarg).1
  unfolding ioctl_cancel_task
  cancel-Effect d m uarg now = elim (Option-cases (copy_from_user u32 m uarg)) [
    | inl e ↦ unchanged (rw (e, ioctl_cancel_task))
    | inr (id, e) ↦ cancels id (rw (e, ioctl_cancel_task))
  ]

  pub query_device :
      (d : Dev) (m : Mem) (uarg : ℕ) → (ioctl_query_task user clock abi d m uarg).1 ≡ d
  unfolding ioctl_query_task
  query_device d m uarg = ground arith

  pub info_device :
      (d : Dev) (m : Mem) (uarg : ℕ) → (ioctl_get_accel_info user clock abi d m uarg).1 ≡ d
  unfolding ioctl_get_accel_info
  info_device d m uarg = ground arith

  pub power_device :
      (d : Dev) (m : Mem) (uarg : ℕ) → (ioctl_set_power user clock abi d m uarg).1 ≡ d
  unfolding ioctl_set_power
  power_device d m uarg = ground arith

  pub accel_device :
      (d : Dev) (m : Mem) (uarg : ℕ) → (ioctl_set_accel user clock abi d m uarg).1 ≡ d
  unfolding ioctl_set_accel
  accel_device d m uarg = ground arith

  pub version_device :
      (d : Dev) (m : Mem) (uarg : ℕ) → (ioctl_get_version user clock abi d m uarg).1 ≡ d
  unfolding ioctl_get_version
  version_device d m uarg = refl

  pub profile_device :
      (d : Dev) (m : Mem) (uarg : ℕ) → (ioctl_get_profile user clock abi d m uarg).1 ≡ d
  unfolding ioctl_get_profile
  profile_device d m uarg = refl

  -- Over a pool in order, an ioctl leaves the device as it was, or cancels the task of an id, or accepts
  -- an acceptable descriptor, at the moment of the call, while a task id is left; for every command, argument and memory.
  pub ioctl-Effect :
      (d : Dev) (cmd : ℕ) (m : Mem) (uarg now : ℕ)
      → IsInOrder d.pool
      → Effect now d (cortex_forge_ioctl user clock abi d cmd m uarg now).1
  ioctl-Effect d cmd m uarg now v =
      ioctl_cases user clock abi d (λ r. Effect now d r.1) cmd m uarg now
        (submit-Effect d m uarg now v) (unchanged (query_device d m uarg))
        (cancel-Effect d m uarg now) (unchanged (info_device d m uarg))
        (unchanged (power_device d m uarg)) (unchanged (version_device d m uarg))
        (unchanged (profile_device d m uarg)) (unchanged (accel_device d m uarg)) (unchanged refl)
