-- ===== src/System/Ends.antt =====
-- Every accepted task comes to its end.
use cortex_forge_driver.Base.{
  ℕ, ◌+◌, ◌≤◌, ◌<◌, ◌≡◌, ◌≢◌, inl, inr, true, refl, arith, ap, ◌∙◌, subst,
}
use cortex_forge_driver.Accel.{num_accelerators}
use cortex_forge_driver.Kernel.{Clock, UserMemory}
use cortex_forge_driver.Uapi.Ioctl.{IoctlAbi}
use cortex_forge_driver.Device.{accel_at, task_of}
use cortex_forge_driver.System.{Reach, System, Step, call, work}
use cortex_forge_driver.System.Timed.{
  boot-IsReady, TimedRun-IsReady, TimedStep-Step, TimedStep-IsReady, Timed, timed_boot, TimedRun,
  stop, next, steps_of, IsReady,
}
use cortex_forge_driver.System.Liveness.{rank_pos, left, IsWantedIn, step_left}
use cortex_forge_driver.System.Ended.{has_ended}
use cortex_forge_driver.System.Alive.{Reach-IsAlive}
use cortex_forge_driver.System.Progress.{fixed-Effect}
use cortex_forge_driver.Chardev.Frame.{ioctl-Effect}
use cortex_forge_driver.System.Steps.{Reach-IsSound}
use cortex_forge_driver.System.Targets.{IsPlaced, accel_type-worker_step}
use cortex_forge_driver.System.Ids.{Step-next}
use cortex_forge_driver.System.Tasks.{Reach-IsPlaced}
use cortex_forge_driver.System.Placement.{in_lane, has}
use cortex_forge_driver.System.Over.{taken_task_over}

module _ (user : UserMemory) (clock : Clock) (abi : IoctlAbi) where
  Step-accel_type :
      {s t : System}
      → Reach user clock abi s
      → (i : ℕ) → i < s.dev.pool.next_task_id
      → Step user clock abi s t
      → (task_of t.dev i).accel_type ≡ (task_of s.dev i).accel_type
  Step-accel_type {s} r i lt (call cmd m uarg now e) =
      ap (λ (x : System). (task_of x.dev i).accel_type) e
      ∙ (fixed-Effect i
          (ioctl-Effect user clock abi s.dev cmd m uarg now (Reach-IsSound user clock abi r).order)
          lt).1
  Step-accel_type {s} r i lt (work a m three e) =
      ap (λ (x : System). (task_of x.dev i).accel_type) e
      ∙ accel_type-worker_step clock m s.dev a i (s.pc a)

  Step-issued :
      {s t : System}
      → Reach user clock abi s
      → (i : ℕ) → i < s.dev.pool.next_task_id
      → Step user clock abi s t
      → i < t.dev.pool.next_task_id
  Step-issued r i lt st =
      omega (arith, Step-next user clock abi (Reach-IsSound user clock abi r) st)

  -- Along a run.
  run_left :
      {s t : Timed} (a i : ℕ)
      → (run : TimedRun user clock abi s t) → IsReady user clock abi s
      → a < num_accelerators
      → i < s.sys.dev.pool.next_task_id
      → IsWantedIn t a i
      → IsWantedIn s a i × (left clock t a i + steps_of user clock abi a run ≤ left clock s a i)
  run_left a i stop v three lt here = (here, omega arith)
  run_left a i (next st run) v three lt here =
      let (middle, rest) =
        run_left a i run (TimedStep-IsReady user clock abi st v) three
          (Step-issued v.reach i lt (TimedStep-Step user clock abi st)) here in
      let (before, first) = step_left user clock abi a i st v three lt middle in
      (before, omega (arith, first, rest))

  pub run_accel_type :
      {s t : Timed} (i : ℕ)
      → TimedRun user clock abi s t
      → IsReady user clock abi s
      → i < s.sys.dev.pool.next_task_id
      → ((task_of t.sys.dev i).accel_type ≡ (task_of s.sys.dev i).accel_type)
        × (i < t.sys.dev.pool.next_task_id)
  run_accel_type i stop v lt = (refl, lt)
  run_accel_type i (next st run) v lt =
      let (rest, issued) =
        run_accel_type i run (TimedStep-IsReady user clock abi st v)
          (Step-issued v.reach i lt (TimedStep-Step user clock abi st)) in
      (rest ∙ Step-accel_type v.reach i lt (TimedStep-Step user clock abi st), issued)

  -- Something is left of a task that waits or is being executed.
  left_pos :
      (s : Timed) (a i : ℕ) → IsReady user clock abi s → IsWantedIn s a i → 0 < left clock s a i
  left_pos s a i v here = omega (
    arith,
    rank_pos clock s.sys.dev (s.due a) (s.sys.pc a)
        ((Reach-IsAlive user clock abi v.reach).no_exit a),
  )

  -- Once the worker of a task's accelerator has taken as many steps as `left` says, the task that was
  -- accepted before is complete or cancelled, and its completion is signalled: in every run from the
  -- start, whatever the clients and the other workers do meanwhile.
  pub accepted_task_ends :
      {s t : Timed} (i : ℕ)
      → TimedRun user clock abi timed_boot s
      → (run : TimedRun user clock abi s t) → i < s.sys.dev.pool.next_task_id
      → left clock s (task_of s.sys.dev i).accel_type i
        ≤ steps_of user clock abi (task_of s.sys.dev i).accel_type run
      → (has_ended (task_of t.sys.dev i).state ≡ true) × ((task_of t.sys.dev i).done ≡ true)
  accepted_task_ends {s} {t} i before run issued enough =
      taken_task_over user clock abi after.reach a i (ground (arith, lane, out))
        (λ held. gone (inr held))
    where
      a : ℕ
      a = (task_of s.sys.dev i).accel_type

      ready : IsReady user clock abi s
      ready = TimedRun-IsReady user clock abi before (boot-IsReady user clock abi)

      after : IsReady user clock abi t
      after = TimedRun-IsReady user clock abi run ready

      placed : IsPlaced s.sys.dev s.sys.started
      placed = Reach-IsPlaced user clock abi ready.reach

      gone : IsWantedIn t a i → ⊥
      gone here = absurd (
          omega (
            arith,
            enough,
            (run_left a i run ready (placed.placed i issued).0 issued here).1,
            left_pos t a i after here,
          ))

      out : has i (accel_at t.sys.dev a).task_queue ≢ true
      out queued = gone (inl queued)

      lane : in_lane (accel_at t.sys.dev a) (t.sys.started a) i ≡ true
      lane =
          let (same, still) = run_accel_type i run ready issued in
          subst (λ k. in_lane (accel_at t.sys.dev k) (t.sys.started k) i ≡ true) same
            ((Reach-IsPlaced user clock abi after.reach).placed i still).1
