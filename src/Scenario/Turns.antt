-- ===== src/Scenario/Turns.antt =====
-- A submission and the steps of the second accelerator's worker after it, a jiffy apart.
use cortex_forge_driver.Base.{
  ◌⊎◌, ◌/◌, ◌*◌, ◌-◌, ℕ_discrete, ℕ, zero, suc, ◌+◌, ◌≤◌, ◌<◌, ◌^◌, ◌≡◌, true, false, refl, arith,
  ap, sym, subst, write_self,
}
use cortex_forge_driver.Uapi.Ioctl.{linux_abi}
use cortex_forge_driver.Uapi.Ioctl
use cortex_forge_driver.Device.{init_device, task_of}
use cortex_forge_driver.Worker.{take_head, worker_step, Pc, Moment, timing, spinning, napping}
use cortex_forge_driver.System.{boot}
use cortex_forge_driver.System.Rank.{next_due, earliest}
use cortex_forge_driver.System.Timed.{
  append_run, Timed, timed_boot, TimedStep, TimedRun, stop, next, steps_of, worked,
}
use cortex_forge_driver.System.Liveness.{left}
use cortex_forge_driver.System.Ends.{accepted_task_ends}
use cortex_forge_driver.Chardev.Dispatch.{code, query_task}
use cortex_forge_driver.System.Ended.{has_ended}
use cortex_forge_driver.Scenario.{asking, user, clock, image}
use cortex_forge_driver.Scenario.Life.{next_task_id-submissions, submissions, after, submission}
use cortex_forge_driver.Accel.{accel_init}
use cortex_forge_driver.Task.{complete, status_of, init_from, task_pool_init}
use cortex_forge_driver.System.Usec.{exec_usec_lem}
use cortex_forge_driver.Uapi.{TaskStatus}
use cortex_forge_driver.Chardev.{copied_out, cortex_forge_ioctl}
use cortex_forge_driver.Kernel.{task_status}
use cortex_forge_driver.System.Reported.{accepted_task_reported}

next_due_le : (now : ℕ) (p : Pc) (due : ℕ) → due ≤ suc now → next_due now p due ≤ suc now
next_due_le now (timing i) due h = omega arith
next_due_le now (spinning i begin timeout) due h = omega arith
next_due_le now (napping i begin timeout) due h = omega arith
next_due_le now _ due h = h

earliest_le : (p : Pc) (due : ℕ) → earliest p due ≤ due
earliest_le (napping i begin timeout) due = omega arith
earliest_le _ due = omega arith

-- A jiffy later.
abbrev tick : Timed → Moment
tick s = record { now = suc s.time; should_stop = false }

unfoldable advance : ℕ → Timed → Timed
advance zero s = s
advance (suc n) s = advance n (worked user clock linux_abi s 1 (tick s))

advance_run :
    (n : ℕ) (s : Timed)
    → s.due 1 ≤ suc s.time
    → n + s.time < 2 ^ 64
    → (run : TimedRun user clock linux_abi s (advance n s)) × (steps_of user clock linux_abi 1 run
        ≡ n)
unfolding advance
advance_run zero s h lt = (stop, refl)
advance_run (suc n) s h lt =
    let (run, count) =
      advance_run n (worked user clock linux_abi s 1 (tick s))
        (subst (λ k. k ≤ suc (suc s.time))
          (sym (write_self s.due 1 (next_due (suc s.time) (s.sys.pc 1) (s.due 1))))
          (next_due_le (suc s.time) (s.sys.pc 1) (s.due 1) (omega arith)))
        (omega arith) in
    (
      next
          (TimedStep.works 1 (tick s) (omega arith) (omega arith) (omega arith)
            (omega (arith, earliest_le (s.sys.pc 1) (s.due 1))) refl)
          run,
      omega (arith, count),
    )

abbrev submitted : Timed
submitted = record { sys = after 1; time = 0; due = λ _. 0 }

submitted_run : TimedRun user clock linux_abi timed_boot submitted
unfolding submissions init_device
submitted_run =
    next
      (TimedStep.calls (Ioctl.submit_task linux_abi) image 1 0 (omega arith) (omega arith) (
        ap (λ d. record submitted { sys = record boot { dev = d } })
          (sym (submission 0 (omega arith)))))
      stop

-- Its timeout is of five jiffies.
left-submitted : left clock submitted (task_of submitted.sys.dev 0).accel_type 0 ≡ 28
unfolding submissions init_device accel_init task_pool_init init_from ℕ_discrete
left-submitted = refl

target_submitted : (task_of submitted.sys.dev 0).accel_type ≡ 1
unfolding submissions init_device accel_init task_pool_init init_from ℕ_discrete
target_submitted = refl

accepted_task_ends_example :
    (has_ended (task_of (advance 28 submitted).sys.dev 0).state ≡ true)
    × ((task_of (advance 28 submitted).sys.dev 0).done ≡ true)
accepted_task_ends_example =
    accepted_task_ends user clock linux_abi 0 submitted_run
      (advance_run 28 submitted (omega arith) (omega arith)).0
      (omega (arith, next_task_id-submissions 1))
      (rw (left-submitted, target_submitted)
        (omega (arith, (advance_run 28 submitted (omega arith) (omega arith)).1)))

completed : (task_of (advance 28 submitted).sys.dev 0).state ≡ complete
unfolding advance submissions init_device accel_init task_pool_init init_from worker_step take_head
    ℕ_discrete
completed = refl

took_less :
    let t = task_of (advance 28 submitted).sys.dev 0 in
    (t.complete_jiffies - t.submit_jiffies) * 1000000 < 2 ^ 64
unfolding advance submissions init_device accel_init task_pool_init init_from worker_step take_head
    ℕ_discrete
took_less = omega arith

exec_usec_example :
    let t = task_of (advance 28 submitted).sys.dev 0 in
    (t.submit_jiffies ≤ t.complete_jiffies)
    × ((status_of clock t).exec_usec ≡ (t.complete_jiffies - t.submit_jiffies) * 1000000 / clock.hz)
exec_usec_example =
    exec_usec_lem user clock linux_abi 0
      (append_run user clock linux_abi submitted_run
        (advance_run 28 submitted (omega arith) (omega arith)).0)
      completed took_less

-- A query of task 1 after the run, with the status at address 2.
accepted_task_reported_example :
    (reported : TaskStatus) × (cortex_forge_ioctl user clock linux_abi
        (advance 28 submitted).sys.dev
        (code linux_abi query_task)
        image
        2
        30
      ≡ copied_out user clock linux_abi
          (advance 28 submitted).sys.dev
          (user.copy_to_user task_status image 2 reported))
    × (reported.task_id ≡ 1)
    × ((reported.status ≡ 3) ⊎ (reported.status ≡ 5))
accepted_task_reported_example =
    accepted_task_reported user clock linux_abi 0 image 2 30 (asking 1) submitted_run
      (advance_run 28 submitted (omega arith) (omega arith)).0
      (omega (arith, next_task_id-submissions 1))
      (rw (left-submitted, target_submitted)
        (omega (arith, (advance_run 28 submitted (omega arith) (omega arith)).1)))
      refl refl
