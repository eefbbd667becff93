-- ===== src/System/Timed.antt =====
-- The driver at work, with the time of every step: jiffies never goes back, it does not wrap, and the
-- sleep of a worker's inner loop takes a jiffy at least.
use cortex_forge_driver.Base.{
  ap, ℕ, ◌^◌, ◌≤◌, ◌<◌, ◌+◌, ◌≡◌, List, [], ◌∷◌, arith, subst, sym, write, write_self, write_ne,
  ℕ_discrete, if_cases, ltb, if◌then◌else◌, ◌==◌,
}
use cortex_forge_driver.Accel.{num_accelerators}
use cortex_forge_driver.Device.{Dev, accel_at, task_of}
use cortex_forge_driver.Kernel.{Clock, UserMemory}
use cortex_forge_driver.Task.{elapsed}
use cortex_forge_driver.Uapi.Ioctl.{IoctlAbi}
use cortex_forge_driver.Worker.{
  Pc, testing, woken, locking, timing, spinning, napping, is_running, Moment, worker_step,
  take_head,
}
use cortex_forge_driver.System.{System, boot, Step, Reach, after_call, after_work}
use cortex_forge_driver.System.Rank.{next_due, earliest, IsTimely}

-- `due` has the earliest time of each worker's next test of the clock.
pub record Timed : Type 0 where
  pub sys : System
  pub time : ℕ
  pub due : ℕ → ℕ

abbrev pub timed_boot : Timed
timed_boot = record { sys = boot; time = 0; due = λ _. 0 }

module _ (user : UserMemory) (clock : Clock) (abi : IoctlAbi) where
  open user use {Mem}

  abbrev pub worked : Timed → ℕ → Moment → Timed
  worked s a e = record {
    sys = after_work user clock abi s.sys a e;
    time = e.now;
    due = write s.due a (next_due e.now (s.sys.pc a) (s.due a));
  }

  -- The next time is `now`.
  pub data TimedStep (s t : Timed) : Type 0 where
    calls :
        (cmd : ℕ) (m : Mem) (uarg now : ℕ)
        → s.time ≤ now
        → now < 2 ^ 64
        → t
          ≡ record { sys = after_call user clock abi s.sys cmd m uarg now; time = now; due = s.due }
        → TimedStep s t
    works :
        (a : ℕ) (e : Moment)
        → a < num_accelerators
        → s.time ≤ e.now
        → e.now < 2 ^ 64
        → earliest (s.sys.pc a) (s.due a) ≤ e.now
        → t ≡ worked s a e
        → TimedStep s t

  pub data TimedRun : Timed → Timed → Type 0 where
    stop : {s : Timed} → TimedRun s s
    next : {s t u : Timed} → TimedStep s t → TimedRun t u → TimedRun s u

  pub append_run : {s t u : Timed} → TimedRun s t → TimedRun t u → TimedRun s u
  append_run stop more = more
  append_run (next st run) more = next st (append_run run more)

  -- Whether a step is one of the worker of `a`.
  abbrev pub own_step : {s t : Timed} → ℕ → TimedStep s t → ℕ
  own_step a (calls cmd m uarg now le lt e) = 0
  own_step a (works b m lt le now ea e) = if b == a then 1 else 0

  -- The number of steps that the worker of `a` takes in a run.
  abbrev pub steps_of : {s t : Timed} → ℕ → TimedRun s t → ℕ
  steps_of a stop = 0
  steps_of a (next st run) = own_step a st + steps_of a run

  pub TimedStep-Step : {s t : Timed} → TimedStep s t → Step user clock abi s.sys t.sys
  TimedStep-Step (calls cmd m uarg now le lt e) =
      Step.call cmd m uarg now (ap (λ (x : Timed). x.sys) e)
  TimedStep-Step (works a m lt le now ea e) = Step.work a m lt (ap (λ (x : Timed). x.sys) e)

-- A worker's step keeps what holds of its times.
module _ (clock : Clock) (e : Moment) (d : Dev) (a time due : ℕ) (le : time ≤ e.now) where
  IsTimely-take_head : (now : ℕ) (queue : List ℕ) → IsTimely now due (take_head d a queue).1
  unfolding take_head
  IsTimely-take_head now [] = tt
  IsTimely-take_head now (i ∷ rest) = tt

  IsTimely-worker_step :
      (p : Pc)
      → IsTimely time due p
      → earliest p due ≤ e.now
      → IsTimely e.now (next_due e.now p due) (worker_step clock e d a p).1
  unfolding worker_step
  IsTimely-worker_step testing t ea = if_cases (IsTimely e.now due) (accel_at d a).running tt tt
  IsTimely-worker_step woken t ea = if_cases (IsTimely e.now due) (accel_at d a).running tt tt
  IsTimely-worker_step locking t ea = IsTimely-take_head e.now (accel_at d a).task_queue
  IsTimely-worker_step (timing i) t ea =
      if_cases (IsTimely e.now e.now) (ltb 0 (task_of d i).timeout_ms) (omega arith, omega arith) tt
  IsTimely-worker_step (spinning i begin timeout) t ea =
      if_cases (IsTimely e.now (e.now + 1)) (ltb (elapsed e.now begin) timeout)
        (if_cases (IsTimely e.now (e.now + 1)) (is_running (task_of d i).state)
          (omega (arith, t.0, t.1)) tt)
        tt
  IsTimely-worker_step (napping i begin timeout) t ea =
      if_cases (IsTimely e.now e.now) e.should_stop tt (omega (arith, t, ea), omega arith)
  IsTimely-worker_step _ t ea = tt

IsTimely-mono :
    {time now : ℕ} (due : ℕ) (p : Pc) → time ≤ now → IsTimely time due p → IsTimely now due p
IsTimely-mono due (spinning i begin timeout) le t = (t.0, omega (arith, t.1))
IsTimely-mono due (napping i begin timeout) le t = t
IsTimely-mono due _ le t = tt

-- What a run keeps.
pub record IsReady (user : UserMemory) (clock : Clock) (abi : IoctlAbi) (s : Timed) : Type 0 where
  pub reach : Reach user clock abi s.sys
  pub timely : (a : ℕ) → IsTimely s.time (s.due a) (s.sys.pc a)

pub boot-IsReady :
    (user : UserMemory) (clock : Clock) (abi : IoctlAbi) → IsReady user clock abi timed_boot
boot-IsReady user clock abi = record { reach = Reach.start; timely = λ a. tt }

module _ (user : UserMemory) (clock : Clock) (abi : IoctlAbi) where
  TimedStep-IsTimely :
      {s t : Timed}
      → TimedStep user clock abi s t
      → ((a : ℕ) → IsTimely s.time (s.due a) (s.sys.pc a))
      → (a : ℕ) → IsTimely t.time (t.due a) (t.sys.pc a)
  TimedStep-IsTimely {s} (calls cmd m uarg now le lt e) v a =
      subst (λ (x : Timed). IsTimely x.time (x.due a) (x.sys.pc a)) (sym e)
        (IsTimely-mono (s.due a) (s.sys.pc a) le (v a))
  TimedStep-IsTimely {s} (works b m lt le now ea e) v a =
      subst (λ (x : Timed). IsTimely x.time (x.due a) (x.sys.pc a)) (sym e) (moved (ℕ_discrete b a))
    where
      moved :
          Dec (b ≡ a)
          → IsTimely m.now
              (write s.due b (next_due m.now (s.sys.pc b) (s.due b)) a)
              ((after_work user clock abi s.sys b m).pc a)
      moved (yes same) =
          subst
            (λ k.
              IsTimely m.now (write s.due b (next_due m.now (s.sys.pc b) (s.due b)) k)
                ((after_work user clock abi s.sys b m).pc k))
            same
            (rw
              (
                write_self s.due b (next_due m.now (s.sys.pc b) (s.due b)),
                write_self s.sys.pc b (worker_step clock m s.sys.dev b (s.sys.pc b)).1,
              )
              (IsTimely-worker_step clock m s.sys.dev b s.time (s.due b) le (s.sys.pc b) (v b) ea))
      moved (no ne) =
          rw
            (
              write_ne s.due b a (next_due m.now (s.sys.pc b) (s.due b)) ne,
              write_ne s.sys.pc b a (worker_step clock m s.sys.dev b (s.sys.pc b)).1 ne,
            )
            (IsTimely-mono (s.due a) (s.sys.pc a) le (v a))

  pub TimedStep-IsReady :
      {s t : Timed}
      → TimedStep user clock abi s t
      → IsReady user clock abi s
      → IsReady user clock abi t
  TimedStep-IsReady st v = record {
    reach = Reach.later v.reach (TimedStep-Step user clock abi st);
    timely = TimedStep-IsTimely st v.timely;
  }

  pub TimedRun-IsReady :
      {s t : Timed}
      → TimedRun user clock abi s t
      → IsReady user clock abi s
      → IsReady user clock abi t
  TimedRun-IsReady stop v = v
  TimedRun-IsReady (next st run) v = TimedRun-IsReady run (TimedStep-IsReady st v)
