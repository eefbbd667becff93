-- ===== src/Chardev/Errors.antt =====
-- What a failing ioctl leaves alone.
use cortex_forge_driver.Chardev.{
  with_pool, copied_out, Outcome, ioctl_submit_task, ioctl_query_task, ioctl_cancel_task,
  ioctl_get_accel_info, ioctl_set_power, ioctl_get_version, ioctl_get_profile, ioctl_set_accel,
  cortex_forge_ioctl,
}
use cortex_forge_driver.Kernel.{task_desc, u32, Clock, UserMemory}
use cortex_forge_driver.Task.{max_tasks, find_task, task_query, Task, task_cancel}
use cortex_forge_driver.Base.{
  dec_lt, refl, ap, [], inr, inl, ◌≢◌, ◌∷◌, arith, Option-cases, Bool, ◌≡◌, List, ℕ,
}
use cortex_forge_driver.Uapi.Ioctl.{IoctlAbi}
use cortex_forge_driver.Device.{Dev}
use cortex_forge_driver.Errno.{efault, fail, Errno}
use cortex_forge_driver.Task.Slots.{IsInOrder}
use cortex_forge_driver.Uapi.{TaskDesc}
use cortex_forge_driver.Chardev.Submit.{
  ioctl_submit_task_exhausted, ioctl_submit_task_accepted, ioctl_submit_task_rejected,
  IsAcceptable-dec, accept,
}
use cortex_forge_driver.Chardev.Cases.{ioctl_cases}

-- A task that is not found leaves the slots as they are.
task_cancel_missing :
    (id : ℕ) (ts : List Task) (e : Errno)
    → (task_cancel id ts).0 ≡ fail e
    → (task_cancel id ts).1 ≡ ts
unfolding task_cancel
task_cancel_missing id [] e h = refl
task_cancel_missing id (t ∷ ts) e h = ground (arith, task_cancel_missing id ts e)

module _ (user : UserMemory) (clock : Clock) (abi : IoctlAbi) (d : Dev) where
  open user use {Mem, copy_from_user}

  -- The answer fails with `e`, no EFAULT, only if device and memory are those of the call.
  abbrev Untouched : Mem → Errno → Outcome user clock abi → Type 0
  Untouched m e r = r.0 ≡ fail e → e ≢ efault → (r.1 ≡ d) × (r.2 ≡ m)

  copied_out_fault :
      (m : Mem) (e : Errno) (c : Bool × Mem) → Untouched m e (copied_out user clock abi d c)
  copied_out_fault m e c h ne = ground arith

  submit-Untouched :
      (m : Mem) (uarg now : ℕ) (e : Errno)
      → IsInOrder d.pool
      → Untouched m e (ioctl_submit_task user clock abi d m uarg now)
  unfolding ioctl_submit_task
  submit-Untouched m uarg now e v = elim (Option-cases (copy_from_user task_desc m uarg)) [
    | inl e₀ ↦ rw (e₀, ioctl_submit_task) (λ h ne. (refl, refl))
    | inr (desc, read) ↦ elim (IsAcceptable-dec desc) [
      | inr bad ↦
          rw (ioctl_submit_task_rejected user clock abi d m uarg now desc read bad)
            (λ h ne. (refl, refl))
      | inl acc ↦ elim (dec_lt d.pool.next_task_id max_tasks) [
        | yes lt ↦
            rw (ioctl_submit_task_accepted user clock abi d m uarg now desc v read acc lt)
              (λ h ne. accepted_ok desc _ h ne)
        | no full ↦
            rw
              (ioctl_submit_task_exhausted user clock abi d m uarg now desc v read acc
                (omega (arith, v.bound)))
              (λ h ne. (refl, refl))
      ]
    ]
  ]
    where
      accepted_ok :
          (desc : TaskDesc) (c : Bool × Mem)
          → Untouched m e (copied_out user clock abi (accept d desc now) c)
      accepted_ok desc c h ne = ground arith

  query-Untouched :
      (m : Mem) (uarg : ℕ) (e : Errno) → Untouched m e (ioctl_query_task user clock abi d m uarg)
  unfolding ioctl_query_task task_query find_task
  query-Untouched m uarg e h ne = ground arith

  cancel-Untouched :
      (m : Mem) (uarg : ℕ) (e : Errno) → Untouched m e (ioctl_cancel_task user clock abi d m uarg)
  unfolding ioctl_cancel_task
  cancel-Untouched m uarg e = elim (Option-cases (copy_from_user u32 m uarg)) [
    | inl none_read ↦ rw (none_read, ioctl_cancel_task) (λ h ne. (refl, refl))
    | inr (id, read) ↦
        rw (read, ioctl_cancel_task)
          (λ h ne. (
            ap (λ ts. with_pool d (record d.pool { tasks = ts }))
                (task_cancel_missing id d.pool.tasks e h),
            refl,
          ))
  ]

  info-Untouched :
      (m : Mem) (uarg : ℕ) (e : Errno)
      → Untouched m e (ioctl_get_accel_info user clock abi d m uarg)
  unfolding ioctl_get_accel_info
  info-Untouched m uarg e h ne = ground arith

  power-Untouched :
      (m : Mem) (uarg : ℕ) (e : Errno) → Untouched m e (ioctl_set_power user clock abi d m uarg)
  unfolding ioctl_set_power
  power-Untouched m uarg e h ne = ground arith

  accel-Untouched :
      (m : Mem) (uarg : ℕ) (e : Errno) → Untouched m e (ioctl_set_accel user clock abi d m uarg)
  unfolding ioctl_set_accel
  accel-Untouched m uarg e h ne = ground arith

  version-Untouched :
      (m : Mem) (uarg : ℕ) (e : Errno) → Untouched m e (ioctl_get_version user clock abi d m uarg)
  unfolding ioctl_get_version
  version-Untouched m uarg e = copied_out_fault m e _

  profile-Untouched :
      (m : Mem) (uarg : ℕ) (e : Errno) → Untouched m e (ioctl_get_profile user clock abi d m uarg)
  unfolding ioctl_get_profile
  profile-Untouched m uarg e = copied_out_fault m e _

  -- Over a pool in order, an ioctl that fails with an error other than EFAULT changes neither the
  -- device nor the user's memory.
  pub cortex_forge_ioctl_fails :
      (cmd : ℕ) (m : Mem) (uarg now : ℕ) (e : Errno)
      → IsInOrder d.pool
      → (cortex_forge_ioctl user clock abi d cmd m uarg now).0 ≡ fail e
      → e ≢ efault
      → ((cortex_forge_ioctl user clock abi d cmd m uarg now).1 ≡ d)
        × ((cortex_forge_ioctl user clock abi d cmd m uarg now).2 ≡ m)
  cortex_forge_ioctl_fails cmd m uarg now e v =
      ioctl_cases user clock abi d (Untouched m e) cmd m uarg now (submit-Untouched m uarg now e v)
        (query-Untouched m uarg e) (cancel-Untouched m uarg e) (info-Untouched m uarg e)
        (power-Untouched m uarg e) (version-Untouched m uarg e) (profile-Untouched m uarg e)
        (accel-Untouched m uarg e) (λ h ne. (refl, refl))
