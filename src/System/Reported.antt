-- ===== src/System/Reported.antt =====
-- From the submission of a task to the report of its end.
use cortex_forge_driver.Base.{ℕ, suc, ◌≤◌, ◌<◌, ◌≡◌, ◌⊎◌, inl, inr, true, some, refl, ap, ◌∙◌}
use cortex_forge_driver.Kernel.{UserMemory, Clock, task_status}
use cortex_forge_driver.Uapi.{TaskStatus}
use cortex_forge_driver.Uapi.Ioctl.{IoctlAbi}
use cortex_forge_driver.Task.{find_task, TaskState, complete, cancelled, status_of, state_code}
use cortex_forge_driver.Device.{task_of}
use cortex_forge_driver.Chardev.{cortex_forge_ioctl, copied_out}
use cortex_forge_driver.Chardev.Calls.{query_found}
use cortex_forge_driver.Chardev.Dispatch.{cortex_forge_ioctl-code, code, query_task}
use cortex_forge_driver.System.Timed.{
  boot-IsReady, TimedRun-IsReady, Timed, timed_boot, TimedRun, steps_of, IsReady,
}
use cortex_forge_driver.System.Liveness.{left}
use cortex_forge_driver.System.Ended.{has_ended}
use cortex_forge_driver.System.Ends.{run_accel_type, accepted_task_ends}
use cortex_forge_driver.Task.Slots.{IsInOrder}
use cortex_forge_driver.System.Steps.{Reach-IsSound}
use cortex_forge_driver.Task.Issue.{find_task_issued}

ended_code : (s : TaskState) → has_ended s ≡ true → (state_code s ≡ 3) ⊎ (state_code s ≡ 5)
unfolding state_code
ended_code complete h = inl refl
ended_code cancelled h = inr refl
ended_code _ h = cc

module _ (user : UserMemory) (clock : Clock) (abi : IoctlAbi) where
  open user use {Mem, copy_from_user, copy_to_user}

  -- Once the worker of a task's accelerator has taken as many steps as `left` says, a query of the id of
  -- a task that was accepted before, in a status that can be read, copies out a status with that id and
  -- the number of COMPLETE or CANCELLED in the driver's enumeration, and leaves the device as it is: in
  -- every run from the start, whatever the clients and the other workers do meanwhile.
  pub accepted_task_reported :
      {s t : Timed} (i : ℕ) (m : Mem) (uarg now : ℕ) (asked : TaskStatus)
      → TimedRun user clock abi timed_boot s
      → (run : TimedRun user clock abi s t) → i < s.sys.dev.pool.next_task_id
      → left clock s (task_of s.sys.dev i).accel_type i
        ≤ steps_of user clock abi (task_of s.sys.dev i).accel_type run
      → copy_from_user task_status m uarg ≡ some asked
      → asked.task_id ≡ suc i
      → (reported : TaskStatus) × (cortex_forge_ioctl user clock abi t.sys.dev
            (code abi query_task)
            m
            uarg
            now
          ≡ copied_out user clock abi t.sys.dev (copy_to_user task_status m uarg reported))
        × (reported.task_id ≡ suc i)
        × ((reported.status ≡ 3) ⊎ (reported.status ≡ 5))
  unfolding status_of
  accepted_task_reported {s} {t} i m uarg now asked before run issued enough read same =
      let ready : IsReady user clock abi s =
        TimedRun-IsReady user clock abi before (boot-IsReady user clock abi) in
      let order : IsInOrder t.sys.dev.pool =
        (Reach-IsSound user clock abi (TimedRun-IsReady user clock abi run ready).reach).order in
      let still : i < t.sys.dev.pool.next_task_id =
        (run_accel_type user clock abi i run ready issued).1 in
      (
        status_of clock (task_of t.sys.dev i),
        cortex_forge_ioctl-code user clock abi t.sys.dev m uarg now query_task
            ∙ query_found user clock abi t.sys.dev m uarg asked (task_of t.sys.dev i) read (
                ap (λ id. find_task id t.sys.dev.pool.tasks) same
                ∙ find_task_issued t.sys.dev.pool order i still),
        (order.issued i still).0,
        ended_code (task_of t.sys.dev i).state
            (accepted_task_ends user clock abi i before run issued enough).0,
      )
