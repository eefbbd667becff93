-- ===== src/Chardev/Submit.antt =====
-- The submit ioctl on every branch, over a pool whose slots are handed out in order.
use cortex_forge_driver.Base.{
  ◌*◌, refl, sym, modify-modify, get_or, subst, ℕ, suc, ◌≤◌, ◌<◌, some, true, false, Bool, ◌≡◌, ◌⊎◌,
  arith, ap, ◌∙◌, leb, ltb, ◌==◌, ◌||◌, ◌&&◌, not, Bool-cases, inl, inr, ◌⊎◌, if◌then◌else◌,
  leb-false,
}
use cortex_forge_driver.Errno.{ok, fail, einval, e2big, enomem}
use cortex_forge_driver.Uapi.{TaskDesc}
use cortex_forge_driver.Uapi.Ioctl.{IoctlAbi}
use cortex_forge_driver.Kernel.{UserMemory, Clock, task_desc}
use cortex_forge_driver.Task.{Task, max_tasks, update_task, task_alloc, zero_task}
use cortex_forge_driver.Task.Slots.{IsInOrder, allocated, fresh_task}
use cortex_forge_driver.Task.Issue.{
  allocated-update-IsInOrder, task_alloc-some, task_alloc-none, task_at_filled,
}
use cortex_forge_driver.Accel.{num_accelerators}
use cortex_forge_driver.Device.{
  Dev, task_of, set_task, set_accel, enqueue, make_pending, task_submit,
}
use cortex_forge_driver.Chardev.{
  max_size, fill, with_pool, copied_out, submitted, submit_allocated, submit_desc,
  ioctl_submit_task,
}

-- The checks that the handler makes of a descriptor.
pub record IsAcceptable (desc : TaskDesc) : Type 0 where
  pub accel : desc.accel_type < 3
  pub no_flags : desc.flags ≡ 0
  pub input : desc.input_size ≤ 64 * 1024 * 1024
  pub output : desc.output_size ≤ 64 * 1024 * 1024

abbrev pub acceptable : TaskDesc → Bool
acceptable desc =
    ltb desc.accel_type num_accelerators
    && (desc.flags == 0 && (leb desc.input_size max_size && leb desc.output_size max_size))

acceptable-true : (desc : TaskDesc) → acceptable desc ≡ true → IsAcceptable desc
acceptable-true desc h = record {
  accel = ground arith;
  no_flags = ground arith;
  input = ground arith;
  output = ground arith;
}

pub acceptable-false : (desc : TaskDesc) → ¬ IsAcceptable desc → acceptable desc ≡ false
acceptable-false desc bad = elim (Bool-cases (acceptable desc)) [
  | inl e ↦ absurd (bad (acceptable-true desc e))
  | inr e ↦ e
]

-- A descriptor is acceptable or not.
pub IsAcceptable-dec : (desc : TaskDesc) → IsAcceptable desc ⊎ ¬ IsAcceptable desc
IsAcceptable-dec desc = elim (Bool-cases (acceptable desc)) [
  | inl e ↦ inl (acceptable-true desc e)
  | inr e ↦ inr (λ acc. cc (e, accepted acc))
]
  where
    accepted : IsAcceptable desc → acceptable desc ≡ true
    accepted acc = ground arith

-- The device after an accepted submission: the next slot holds the task, pending, and stands at the
-- end of its accelerator's queue.
abbrev pub fill_pending : TaskDesc → ℕ → Task → Task
fill_pending desc now t = make_pending now (fill desc t)

abbrev pub accept : Dev → TaskDesc → ℕ → Dev
accept d desc now =
    set_accel
      (with_pool d (
        update_task (update_task (allocated d.pool) d.pool.next_task_id (fill desc))
          d.pool.next_task_id (make_pending now)))
      desc.accel_type (enqueue d.pool.next_task_id)

task_submit-accept :
    (d : Dev) (desc : TaskDesc) (now : ℕ)
    → IsInOrder d.pool
    → IsAcceptable desc
    → d.pool.next_task_id < max_tasks
    → task_submit
        (set_task (with_pool d (allocated d.pool)) d.pool.next_task_id (fill desc))
        d.pool.next_task_id
        desc.accel_type
        now
      ≡ (ok, accept d desc now)
unfolding task_submit
task_submit-accept d desc now v acc h =
    ap
      (λ b.
        if b
        then (
          fail einval,
          set_task (with_pool d (allocated d.pool)) d.pool.next_task_id (fill desc),
        )
        else (ok, accept d desc now))
      (ap (λ (t : Task). leb num_accelerators t.accel_type) (task_at_filled d.pool (fill desc) h v)
        ∙ leb-false num_accelerators desc.accel_type acc.accel)

pub accept-IsInOrder :
    (d : Dev) (desc : TaskDesc) (now : ℕ)
    → d.pool.next_task_id < max_tasks
    → IsInOrder d.pool
    → IsInOrder (accept d desc now).pool
accept-IsInOrder d desc now h v =
    subst (λ ts. IsInOrder (record (allocated d.pool) { tasks = ts }))
      (sym
        (modify-modify (allocated d.pool).tasks d.pool.next_task_id (fill desc) (make_pending now)))
      (allocated-update-IsInOrder d.pool (fill_pending desc now) refl refl h v)

-- What stands in the slot of an accepted task.
pub accept-task :
    (d : Dev) (desc : TaskDesc) (now : ℕ)
    → d.pool.next_task_id < max_tasks
    → IsInOrder d.pool
    → task_of (accept d desc now) d.pool.next_task_id
      ≡ fill_pending desc now (fresh_task (suc d.pool.next_task_id))
accept-task d desc now h v =
    ap (λ ts. get_or ts d.pool.next_task_id zero_task)
      (modify-modify (allocated d.pool).tasks d.pool.next_task_id (fill desc) (make_pending now))
    ∙ task_at_filled d.pool (fill_pending desc now) h v

module _ (user : UserMemory) (clock : Clock) (abi : IoctlAbi) where
  open user use {Mem, copy_from_user, copy_to_user}

  submit_desc_acceptable :
      (d : Dev) (desc : TaskDesc) (m : Mem) (uarg now : ℕ)
      → IsAcceptable desc
      → submit_desc user clock abi d desc m uarg now
        ≡ submit_allocated user clock abi d desc m uarg now (task_alloc d.pool)
  unfolding submit_desc
  submit_desc_acceptable d desc m uarg now acc = ground arith

  pub ioctl_submit_task_accepted :
      (d : Dev) (m : Mem) (uarg now : ℕ) (desc : TaskDesc)
      → IsInOrder d.pool
      → copy_from_user task_desc m uarg ≡ some desc
      → IsAcceptable desc
      → d.pool.next_task_id < max_tasks
      → ioctl_submit_task user clock abi d m uarg now
        ≡ copied_out user clock abi
            (accept d desc now)
            (copy_to_user task_desc m uarg (record desc { task_id = suc d.pool.next_task_id }))
  unfolding ioctl_submit_task
  ioctl_submit_task_accepted d m uarg now desc v e acc h =
      rw (e, ioctl_submit_task)
        (submit_desc_acceptable d desc m uarg now acc
          ∙ ap (submit_allocated user clock abi d desc m uarg now) (task_alloc-some d.pool v h)
          ∙ ap (submitted user clock abi d.pool.next_task_id desc m uarg)
              (task_submit-accept d desc now v acc h)
          ∙ ap
              (λ (id : ℕ).
                copied_out user clock abi (accept d desc now)
                  (copy_to_user task_desc m uarg (record desc { task_id = id })))
              (ap (λ (t : Task). t.id) (accept-task d desc now h v)))

  pub ioctl_submit_task_exhausted :
      (d : Dev) (m : Mem) (uarg now : ℕ) (desc : TaskDesc)
      → IsInOrder d.pool
      → copy_from_user task_desc m uarg ≡ some desc
      → IsAcceptable desc
      → d.pool.next_task_id ≡ max_tasks
      → ioctl_submit_task user clock abi d m uarg now ≡ (fail enomem, d, m)
  unfolding ioctl_submit_task
  ioctl_submit_task_exhausted d m uarg now desc v e acc h =
      rw (e, ioctl_submit_task)
        (submit_desc_acceptable d desc m uarg now acc
          ∙ ap (submit_allocated user clock abi d desc m uarg now) (task_alloc-none d.pool v h))

  -- A descriptor that can be read and is not acceptable is refused: with EINVAL if its accelerator type
  -- is out of range or a flag is set, and else with E2BIG. Neither the device nor the user's memory
  -- changes.
  pub ioctl_submit_task_rejected :
      (d : Dev) (m : Mem) (uarg now : ℕ) (desc : TaskDesc)
      → copy_from_user task_desc m uarg ≡ some desc
      → ¬ IsAcceptable desc
      → ioctl_submit_task user clock abi d m uarg now ≡ (
        if leb num_accelerators desc.accel_type || not (desc.flags == 0)
            then fail einval
            else fail e2big,
        d,
        m,
      )
  unfolding ioctl_submit_task submit_desc
  ioctl_submit_task_rejected d m uarg now desc e bad =
      rw (e, ioctl_submit_task) (ground (arith, acceptable-false desc bad))
