-- ===== src/Concurrent/Alone.antt =====
-- A submission that nothing interrupts.
use cortex_forge_driver.Base.{
  arith, ◌||◌, not, if◌then◌else◌, ◌∙◌, ap, suc, ◌<◌, if_both, ℕ, ◌≡◌, refl, some, none, inl, inr,
  Option, Bool-cases, modify-modify, leb, ltb, ◌==◌,
}
use cortex_forge_driver.Uapi.{TaskDesc}
use cortex_forge_driver.Uapi.Ioctl.{IoctlAbi}
use cortex_forge_driver.Kernel.{UserMemory, Clock, task_desc}
use cortex_forge_driver.Task.{task_alloc, Pool}
use cortex_forge_driver.Accel.{num_accelerators}
use cortex_forge_driver.Device.{Dev, task_of, set_task, task_submit}
use cortex_forge_driver.Chardev.{
  max_size, fill, with_pool, Outcome, submit_allocated, submit_desc, ioctl_submit_task,
}
use cortex_forge_driver.Chardev.{copied_out}
use cortex_forge_driver.Chardev.Submit.{acceptable-false, IsAcceptable, ioctl_submit_task_accepted}
use cortex_forge_driver.Chardev.Change.{submitted_in, accept-submitted_in}
use cortex_forge_driver.Task.{max_tasks}
use cortex_forge_driver.Task.Slots.{IsInOrder}
use cortex_forge_driver.Errno.{einval, e2big, ok, fail, efault}
use cortex_forge_driver.Concurrent.{call_steps, Call, returned, got, begin, call_step}

module _ (user : UserMemory) (clock : Clock) (abi : IoctlAbi) (m : user.Mem) (uarg now : ℕ) where
  open user use {Mem, copy_from_user, copy_to_user}

  abbrev end : Outcome user clock abi → Dev × Call × Mem
  end (ret, d, m') = (d, returned ret, m')

  -- Five moves of a call that has begun.
  abbrev five : Dev × Call → Dev × Call × Mem
  five (d, k) = call_steps user uarg now 5 (d, k, m)

  got_alone :
      (d : Dev) (desc : TaskDesc) (o : Option ℕ × Pool)
      → five (got d desc o) ≡ end (submit_allocated user clock abi d desc m uarg now o)
  unfolding got submit_allocated call_step task_submit
  got_alone d desc (none, p) = refl
  got_alone d desc (some i, p) =
      elim (Bool-cases (leb num_accelerators (task_of filled i).accel_type)) [
        | inl e ↦ rw e refl
        | inr e ↦ rw (e, modify-modify filled.pool.tasks i) refl
      ]
    where
      filled : Dev
      filled = set_task (with_pool d p) i (fill desc)

  abbrev Same : Dev × Call → Outcome user clock abi → Type 0
  Same s r = five s ≡ end r

  begin_alone :
      (d : Dev) (desc : TaskDesc)
      → five (begin d desc) ≡ end (submit_desc user clock abi d desc m uarg now)
  unfolding begin submit_desc call_step
  begin_alone d desc = if_both Same (leb num_accelerators desc.accel_type) refl (
      if_both Same (desc.flags == 0)
        (if_both Same (ltb max_size desc.input_size) refl (
          if_both Same (ltb max_size desc.output_size) refl (got_alone d desc (task_alloc d.pool))))
        refl)

  submit_alone :
      (d : Dev) (desc : TaskDesc)
      → copy_from_user task_desc m uarg ≡ some desc
      → five (begin d desc) ≡ end (ioctl_submit_task user clock abi d m uarg now)
  unfolding ioctl_submit_task
  submit_alone d desc read = rw (read, ioctl_submit_task) (begin_alone d desc)

  begin_refused :
      (d : Dev) (desc : TaskDesc)
      → ¬ IsAcceptable desc
      → begin d desc ≡ (
        d,
        returned (
            if leb num_accelerators desc.accel_type || not (desc.flags == 0)
            then fail einval
            else fail e2big),
      )
  unfolding begin
  begin_refused d desc bad = ground (arith, acceptable-false desc bad)

  -- Over a pool in order with a task id left, a submission of an acceptable descriptor, taken by its
  -- moves with none of another between them, has after five of them written the descriptor with the next
  -- id to the caller's memory, has returned 0, or -EFAULT if that write faulted, and has left the device
  -- with the next slot pending, with the fields of the descriptor, at the end of the queue of its
  -- accelerator, and nothing else of it changed. One of a descriptor that is not acceptable returns at
  -- once with the device as it was, with -EINVAL for its accelerator or its flags and else with -E2BIG.
  pub submission_alone :
      (d : Dev) (desc refused : TaskDesc)
      → IsInOrder d.pool
      → copy_from_user task_desc m uarg ≡ some desc
      → IsAcceptable desc
      → ¬ IsAcceptable refused
      → d.pool.next_task_id < max_tasks
      → let (fault, written) =
          copy_to_user task_desc m uarg (record desc { task_id = suc d.pool.next_task_id }) in
        let (d', k) = begin d desc in
        (call_steps user uarg now 5 (d', k, m)
          ≡ (submitted_in d desc now, returned (if fault then fail efault else ok), written))
        × (begin d refused ≡ (
          d,
          returned (
              if leb num_accelerators refused.accel_type || not (refused.flags == 0)
              then fail einval
              else fail e2big),
        ))
  submission_alone d desc refused v read acc bad lt = (
    submit_alone d desc read
        ∙ ap end (ioctl_submit_task_accepted user clock abi d m uarg now desc v read acc lt)
        ∙ ap
            (λ (d' : Dev). end (
              copied_out user clock abi d' (
                copy_to_user task_desc m uarg (record desc { task_id = suc d.pool.next_task_id }))))
            (accept-submitted_in d desc now),
    begin_refused d refused bad,
  )
