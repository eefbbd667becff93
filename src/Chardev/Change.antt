-- ===== src/Chardev/Change.antt =====
-- What each ioctl command may change in the device, and with which result, written out.
use cortex_forge_driver.Base.{
  List, Bool, if◌then◌else◌, ℕ, zero, suc, ◌<◌, ◌-◌, ◌≡◌, ◌≢◌, inl, inr, refl, sym, arith, ap,
  subst, some, ◌++◌, ◌∷◌, [], modify, count_from, dec_lt, ℕ_discrete, Option-cases, if_cases,
  if_false, ==-ne, ◌==◌, modify-modify, true, false,
}
use cortex_forge_driver.Errno.{Ret, Errno, ok, fail, einval, e2big, enomem, efault, enoent}
use cortex_forge_driver.Uapi.{TaskDesc}
use cortex_forge_driver.Uapi.Ioctl.{IoctlAbi}
use cortex_forge_driver.Uapi.Ioctl
use cortex_forge_driver.Kernel.{UserMemory, Clock, task_desc, u32}
use cortex_forge_driver.Task.{Task, max_tasks, task_cancel}
use cortex_forge_driver.Task.Slots.{IsInOrder}
use cortex_forge_driver.Device.{Dev}
use cortex_forge_driver.Chardev.{Outcome, cortex_forge_ioctl, ioctl_submit_task, ioctl_cancel_task}
use cortex_forge_driver.Chardev.Spec.{as_submitted, as_cancelled}
use cortex_forge_driver.Chardev.Submit.{
  ioctl_submit_task_rejected, ioctl_submit_task_exhausted, ioctl_submit_task_accepted, IsAcceptable,
  IsAcceptable-dec, accept,
}
use cortex_forge_driver.Chardev.Dispatch.{code, submit_task, cancel_task, cortex_forge_ioctl-code}
use cortex_forge_driver.Chardev.Frame.{
  accel_device, profile_device, version_device, power_device, info_device, query_device, cancel_in,
}
use cortex_forge_driver.Task.Issue.{task_cancel-at, task_cancel-unissued}

-- The device with the task of slot `i` cancelled.
abbrev pub cancelled_at : Dev → ℕ → Dev
cancelled_at d i = record d { pool = record d.pool { tasks = modify d.pool.tasks i as_cancelled } }

-- The device with the next slot handed out for a descriptor, and queued.
abbrev pub submitted_in : Dev → TaskDesc → ℕ → Dev
submitted_in d desc now =
    let next = d.pool.next_task_id in
    record {
      pool = record {
        tasks = modify d.pool.tasks next (λ _. as_submitted desc (suc next) now);
        free_tasks = count_from (suc next) (max_tasks - suc next);
        next_task_id = suc next;
      };
      accelerators =
          modify d.accelerators desc.accel_type
            (λ x. record x { task_queue = x.task_queue ++ next ∷ [] });
    }

pub accept-submitted_in :
    (d : Dev) (desc : TaskDesc) (now : ℕ) → accept d desc now ≡ submitted_in d desc now
accept-submitted_in d desc now =
    rw
      (
        modify-modify d.pool.tasks d.pool.next_task_id,
        modify-modify d.pool.tasks d.pool.next_task_id,
      )
      refl

module _ (user : UserMemory) (clock : Clock) (abi : IoctlAbi) where
  open user use {Mem, copy_from_user, copy_to_user}

  -- How a command at an argument takes `d` to `d'` and returns `ret`: another command than a submission
  -- or a cancellation changes nothing; these two change nothing when they fail, but for a submission
  -- whose answer faults; a cancellation that succeeds cancels the task of the id that it reads; and a
  -- submission that succeeds, or whose answer faults, queues the task of the descriptor that it reads.
  pub data Change (d : Dev) (cmd : ℕ) (m : Mem) (uarg now : ℕ) (ret : Ret) (d' : Dev) : Type 0 where
    others :
        cmd ≢ code abi submit_task
        → cmd ≢ code abi cancel_task
        → d' ≡ d
        → Change d cmd m uarg now ret d'
    refuses : (e : Errno) → ret ≡ fail e → d' ≡ d → Change d cmd m uarg now ret d'
    cancels :
        (i : ℕ)
        → cmd ≡ code abi cancel_task
        → copy_from_user u32 m uarg ≡ some (suc i)
        → i < d.pool.next_task_id
        → ret ≡ ok
        → d' ≡ cancelled_at d i
        → Change d cmd m uarg now ret d'
    submits :
        (desc : TaskDesc)
        → cmd ≡ code abi submit_task
        → copy_from_user task_desc m uarg ≡ some desc
        → IsAcceptable desc
        → d.pool.next_task_id < max_tasks
        → ret ≡ (
            if (copy_to_user task_desc m uarg (record desc { task_id = suc d.pool.next_task_id })).0
            then fail efault
            else ok)
        → d' ≡ submitted_in d desc now
        → Change d cmd m uarg now ret d'

  module _ (d : Dev) (m : Mem) (uarg now : ℕ) (v : IsInOrder d.pool) where
    abbrev Changes : ℕ → Outcome user clock abi → Type 0
    Changes cmd r = Change d cmd m uarg now r.0 r.1

    refused :
        {cmd : ℕ} {r : Outcome user clock abi} (e : Errno) → r ≡ (fail e, d, m) → Changes cmd r
    refused e q =
        refuses e (ap (λ (r : Outcome user clock abi). r.0) q)
          (ap (λ (r : Outcome user clock abi). r.1) q)

    refused_as :
        {cmd : ℕ} {r : Outcome user clock abi} (b : Bool) (e e' : Errno)
        → r ≡ (if b then fail e else fail e', d, m)
        → Changes cmd r
    refused_as true e e' q = refused e q
    refused_as false e e' q = refused e' q

    submit-Change : Changes (code abi submit_task) (ioctl_submit_task user clock abi d m uarg now)
    unfolding ioctl_submit_task
    submit-Change = elim (Option-cases (copy_from_user task_desc m uarg)) [
      | inl none_read ↦ rw (none_read, ioctl_submit_task) (refuses efault refl refl)
      | inr (desc, read) ↦ elim (IsAcceptable-dec desc) [
        | inr bad ↦
            refused_as _ einval e2big
              (ioctl_submit_task_rejected user clock abi d m uarg now desc read bad)
        | inl acc ↦ elim (dec_lt d.pool.next_task_id max_tasks) [
          | yes lt ↦
              subst (Changes (code abi submit_task))
                (sym (ioctl_submit_task_accepted user clock abi d m uarg now desc v read acc lt))
                (submits desc refl read acc lt refl (accept-submitted_in d desc now))
          | no nlt ↦ refused enomem (
              ioctl_submit_task_exhausted user clock abi d m uarg now desc v read acc
                (omega (arith, v.bound)))
        ]
      ]
    ]

    cancelled :
        (id : ℕ)
        → copy_from_user u32 m uarg ≡ some id
        → Change d
            (code abi cancel_task)
            m
            uarg
            now
            (task_cancel id d.pool.tasks).0
            (cancel_in d id)
    cancelled zero read =
        refuses enoent (ap (λ (r : Ret × List Task). r.0) none_found) (
          ap (λ (r : Ret × List Task). record d { pool = record d.pool { tasks = r.1 } })
            none_found)
      where
        none_found : task_cancel 0 d.pool.tasks ≡ (fail enoent, d.pool.tasks)
        none_found = task_cancel-unissued d.pool v 0 (inl refl)
    cancelled (suc i) read = elim (dec_lt i d.pool.next_task_id) [
      | yes lt ↦
          cancels i refl read lt (ap (λ (r : Ret × List Task). r.0) (task_cancel-at d.pool v i lt))
            (ap (λ (r : Ret × List Task). record d { pool = record d.pool { tasks = r.1 } })
              (task_cancel-at d.pool v i lt))
      | no nlt ↦
          let none_found : task_cancel (suc i) d.pool.tasks ≡ (fail enoent, d.pool.tasks) =
            task_cancel-unissued d.pool v (suc i) (inr (omega arith)) in
          refuses enoent (ap (λ (r : Ret × List Task). r.0) none_found) (
            ap (λ (r : Ret × List Task). record d { pool = record d.pool { tasks = r.1 } })
              none_found)
    ]

    cancel-Change : Changes (code abi cancel_task) (ioctl_cancel_task user clock abi d m uarg)
    unfolding ioctl_cancel_task
    cancel-Change = elim (Option-cases (copy_from_user u32 m uarg)) [
      | inl none_read ↦ rw (none_read, ioctl_cancel_task) (refuses efault refl refl)
      | inr (id, read) ↦ rw (read, ioctl_cancel_task) (cancelled id read)
    ]

    abbrev Same : Outcome user clock abi → Type 0
    Same r = r.1 ≡ d

    unless :
        (b : Bool) (x y : Outcome user clock abi) → b ≡ false → Same y → Same (if b then x else y)
    unless b x y e h = subst Same (sym (if_false b x y e)) h

    other-Change :
        (cmd : ℕ)
        → cmd ≢ code abi submit_task
        → cmd ≢ code abi cancel_task
        → (cortex_forge_ioctl user clock abi d cmd m uarg now).1 ≡ d
    unfolding cortex_forge_ioctl
    other-Change cmd ns nc = unless (cmd == Ioctl.submit_task abi) _ _ (==-ne cmd _ ns) (
        if_cases Same (cmd == Ioctl.query_task abi) (query_device user clock abi d m uarg) (
          unless (cmd == Ioctl.cancel_task abi) _ _ (==-ne cmd _ nc) (
            if_cases Same (cmd == Ioctl.get_accel_info abi) (info_device user clock abi d m uarg) (
              if_cases Same (cmd == Ioctl.set_power abi) (power_device user clock abi d m uarg) (
                if_cases Same (cmd == Ioctl.get_version abi)
                  (version_device user clock abi d m uarg)
                  (if_cases Same (cmd == Ioctl.get_profile abi)
                    (profile_device user clock abi d m uarg)
                    (if_cases Same (cmd == Ioctl.set_accel abi)
                      (accel_device user clock abi d m uarg) refl)))))))

    -- Over a pool in order, every command, argument and memory: an ioctl changes the device as the
    -- command may, with the result that goes with it.
    pub ioctl_changes : (cmd : ℕ) → Changes cmd (cortex_forge_ioctl user clock abi d cmd m uarg now)
    ioctl_changes cmd = elim (ℕ_discrete cmd (code abi submit_task)) [
      | yes e ↦
          rw (e, cortex_forge_ioctl-code user clock abi d m uarg now submit_task) submit-Change
      | no ns ↦ elim (ℕ_discrete cmd (code abi cancel_task)) [
        | yes e ↦
            rw (e, cortex_forge_ioctl-code user clock abi d m uarg now cancel_task) cancel-Change
        | no nc ↦ others ns nc (other-Change cmd ns nc)
      ]
    ]
