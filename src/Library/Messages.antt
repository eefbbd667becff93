-- ===== src/Library/Messages.antt =====
-- The library's message for every answer of the driver.
use cortex_forge_driver.Base.{
  [], ◌∷◌, ℕ, ◌≡◌, Bool, true, false, refl, arith, Option-cases, inl, inr, List,
}
use cortex_forge_driver.Errno.{
  ecanceled, e2big, etimedout, ebusy, enotty, enoent, enomem, efault, einval, Errno, Ret, ok, fail,
  other,
}
use cortex_forge_driver.Kernel.{UserMemory, Clock, u32}
use cortex_forge_driver.Uapi.Ioctl.{IoctlAbi}
use cortex_forge_driver.Task.{task_query, Task, task_cancel}
use cortex_forge_driver.Device.{Dev, task_submit}
use cortex_forge_driver.Chardev.{
  Outcome, copied_out, submit_allocated, submit_desc, ioctl_submit_task, ioctl_query_task,
  ioctl_cancel_task, ioctl_get_accel_info, ioctl_set_power, ioctl_get_version, ioctl_get_profile,
  ioctl_set_accel, cortex_forge_ioctl,
}
use cortex_forge_driver.Library.{cortex_forge_strerror}
use Prim.Native.String.{String}
use cortex_forge_driver.Chardev.Cases.{ioctl_cases}

-- Success, or an error that the code names.
abbrev pub is_named : Ret → Bool
is_named (fail (other n)) = false
is_named _ = true

task_cancel_named : (id : ℕ) (ts : List Task) → is_named (task_cancel id ts).0 ≡ true
unfolding task_cancel
task_cancel_named id [] = refl
task_cancel_named id (t ∷ ts) = ground (arith, task_cancel_named id ts)

module _ (user : UserMemory) (clock : Clock) (abi : IoctlAbi) (d : Dev) where
  open user use {Mem, copy_from_user}

  abbrev IsNamed : Outcome user clock abi → Type 0
  IsNamed r = is_named r.0 ≡ true

  copied_out-IsNamed : (d' : Dev) (c : Bool × Mem) → IsNamed (copied_out user clock abi d' c)
  copied_out-IsNamed d' c = ground arith

  submit-IsNamed :
      (m : Mem) (uarg now : ℕ) → IsNamed (ioctl_submit_task user clock abi d m uarg now)
  unfolding ioctl_submit_task submit_desc submit_allocated task_submit
  submit-IsNamed m uarg now = ground arith

  query-IsNamed : (m : Mem) (uarg : ℕ) → IsNamed (ioctl_query_task user clock abi d m uarg)
  unfolding ioctl_query_task task_query
  query-IsNamed m uarg = ground arith

  cancel-IsNamed : (m : Mem) (uarg : ℕ) → IsNamed (ioctl_cancel_task user clock abi d m uarg)
  unfolding ioctl_cancel_task
  cancel-IsNamed m uarg = elim (Option-cases (copy_from_user u32 m uarg)) [
    | inl none_read ↦ rw (none_read, ioctl_cancel_task) refl
    | inr (id, read) ↦ rw (read, ioctl_cancel_task) (task_cancel_named id d.pool.tasks)
  ]

  info-IsNamed : (m : Mem) (uarg : ℕ) → IsNamed (ioctl_get_accel_info user clock abi d m uarg)
  unfolding ioctl_get_accel_info
  info-IsNamed m uarg = ground arith

  power-IsNamed : (m : Mem) (uarg : ℕ) → IsNamed (ioctl_set_power user clock abi d m uarg)
  unfolding ioctl_set_power
  power-IsNamed m uarg = ground arith

  accel-IsNamed : (m : Mem) (uarg : ℕ) → IsNamed (ioctl_set_accel user clock abi d m uarg)
  unfolding ioctl_set_accel
  accel-IsNamed m uarg = ground arith

  version-IsNamed : (m : Mem) (uarg : ℕ) → IsNamed (ioctl_get_version user clock abi d m uarg)
  unfolding ioctl_get_version
  version-IsNamed m uarg = ground arith

  profile-IsNamed : (m : Mem) (uarg : ℕ) → IsNamed (ioctl_get_profile user clock abi d m uarg)
  unfolding ioctl_get_profile
  profile-IsNamed m uarg = ground arith

  ioctl-IsNamed :
      (cmd : ℕ) (m : Mem) (uarg now : ℕ)
      → IsNamed (cortex_forge_ioctl user clock abi d cmd m uarg now)
  ioctl-IsNamed cmd m uarg now =
      ioctl_cases user clock abi d IsNamed cmd m uarg now (submit-IsNamed m uarg now)
        (query-IsNamed m uarg) (cancel-IsNamed m uarg) (info-IsNamed m uarg) (power-IsNamed m uarg)
        (version-IsNamed m uarg) (profile-IsNamed m uarg) (accel-IsNamed m uarg) refl

  strerror_named :
      (strerror strerror' : Errno → String) (r : Ret)
      → is_named r ≡ true
      → cortex_forge_strerror strerror r ≡ cortex_forge_strerror strerror' r
  unfolding cortex_forge_strerror
  strerror_named strerror strerror' ok h = refl
  strerror_named strerror strerror' (fail einval) h = refl
  strerror_named strerror strerror' (fail efault) h = refl
  strerror_named strerror strerror' (fail enomem) h = refl
  strerror_named strerror strerror' (fail enoent) h = refl
  strerror_named strerror strerror' (fail enotty) h = refl
  strerror_named strerror strerror' (fail ebusy) h = refl
  strerror_named strerror strerror' (fail etimedout) h = refl
  strerror_named strerror strerror' (fail e2big) h = refl
  strerror_named strerror strerror' (fail ecanceled) h = refl
  strerror_named strerror strerror' (fail (other n)) h = cc

  -- The library has a message of its own for whatever an ioctl returns, in every state of the driver and
  -- for every command, argument and memory: the text does not depend on the C library's strerror.
  pub strerror_total :
      (strerror strerror' : Errno → String) (cmd : ℕ) (m : Mem) (uarg now : ℕ)
      → let ret = (cortex_forge_ioctl user clock abi d cmd m uarg now).0 in
        cortex_forge_strerror strerror ret ≡ cortex_forge_strerror strerror' ret
  strerror_total strerror strerror' cmd m uarg now =
      strerror_named strerror strerror' (cortex_forge_ioctl user clock abi d cmd m uarg now).0
        (ioctl-IsNamed cmd m uarg now)
