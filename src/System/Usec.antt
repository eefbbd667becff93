-- ===== src/System/Usec.antt =====
-- The execution time that a query reports.
use cortex_forge_driver.Base.{
  List, get_or-replicate, ℕ, zero, suc, ◌-◌, ◌*◌, ◌/◌, ◌^◌, ◌≤◌, ◌<◌, ◌≡◌, refl, arith, ap, sym,
  subst,
}
use cortex_forge_driver.Task.{
  Task, Pool, free, complete, zero_task, zero_pool, max_tasks, task_at, init_from, task_pool_init,
  status_of,
}
use cortex_forge_driver.Task.Slots.{get_or-modify_keeps}
use cortex_forge_driver.Device.{Dev, task_of, init_device}
use cortex_forge_driver.Kernel.{Clock, UserMemory}
use cortex_forge_driver.Uapi.Ioctl.{IoctlAbi}
use cortex_forge_driver.Chardev.Frame.{Effect, unchanged, cancels, accepts, ioctl-Effect}
use cortex_forge_driver.System.{boot}
use cortex_forge_driver.System.Rank.{elapsed_lem}
use cortex_forge_driver.System.Timed.{
  boot-IsReady, TimedStep-IsReady, Timed, timed_boot, TimedStep, calls, works, TimedRun, stop, next,
  IsReady,
}
use cortex_forge_driver.System.Stamps.{IsStamped}
use cortex_forge_driver.System.Stamped.{
  work-IsStamped, IsStamped-later, cancel-IsStamped, accept-IsStamped,
}
use cortex_forge_driver.System.Sound.{IsSound}
use cortex_forge_driver.Worker.{Pc}
use cortex_forge_driver.System.Steps.{Reach-IsSound}

-- A slot that was never used.
abbrev IsUnused : Task → Type 0
IsUnused t = (t.submit_jiffies ≡ 0) × (t.complete_jiffies ≡ 0) × (t.state ≡ free)

init_from-IsUnused :
    (n i : ℕ) (p : Pool) (j : ℕ) → IsUnused (task_at p j) → IsUnused (task_at (init_from n i p) j)
unfolding init_from
init_from-IsUnused zero i p j h = h
init_from-IsUnused (suc n) i p j h =
    init_from-IsUnused n (suc i) _ j
      (get_or-modify_keeps IsUnused p.tasks i j _ (λ t k. (k.0, k.1, refl)) h)

boot-IsUnused : (i : ℕ) → IsUnused (task_of boot.dev i)
unfolding init_device task_pool_init
boot-IsUnused i =
    init_from-IsUnused max_tasks 0 zero_pool i
      (subst IsUnused (sym (get_or-replicate max_tasks i zero_task)) (refl, refl, refl))

boot-IsStamped : IsStamped boot.dev boot.pc 0
boot-IsStamped = record {
  submitted = λ i. omega (arith, (boot-IsUnused i).0);
  past = λ i. omega (arith, (boot-IsUnused i).1);
  ended = λ i h. cc ((boot-IsUnused i).2, h);
  stamped = λ a i h. cc;
}

module _ (user : UserMemory) (clock : Clock) (abi : IoctlAbi) where
  Effect-IsStamped :
      {now : ℕ} {d d' : Dev} (pc : ℕ → Pc) (log : ℕ → List ℕ)
      → Effect now d d'
      → IsSound d pc log
      → IsStamped d pc now
      → IsStamped d' pc now
  Effect-IsStamped pc log (unchanged e) sound v = rw e v
  Effect-IsStamped {now} {d} pc log (cancels id e) sound v = rw e (cancel-IsStamped d pc now id v)
  Effect-IsStamped {now} {d} pc log (accepts desc acc h e) sound v =
      rw e (accept-IsStamped d pc log desc now h sound v)

  abbrev InPast : Timed → Type 0
  InPast s = IsStamped s.sys.dev s.sys.pc s.time × (s.time < 2 ^ 64)

  TimedStep-IsStamped :
      {s t : Timed} → TimedStep user clock abi s t → IsReady user clock abi s → InPast s → InPast t
  TimedStep-IsStamped {s} (calls cmd m uarg now le lt e) ready v =
      let sound : IsSound s.sys.dev s.sys.pc s.sys.started =
        Reach-IsSound user clock abi ready.reach in
      subst InPast (sym e) (
        Effect-IsStamped s.sys.pc s.sys.started
            (ioctl-Effect user clock abi s.sys.dev cmd m uarg now sound.order) sound
            (IsStamped-later le v.0),
        lt,
      )
  TimedStep-IsStamped {s} (works a m lt le now ea e) ready v = subst InPast (sym e) (
    work-IsStamped clock m s.sys.dev s.sys.pc s.sys.started a s.time le
        (Reach-IsSound user clock abi ready.reach) v.0,
    now,
  )

  TimedRun-IsStamped :
      {s t : Timed} → TimedRun user clock abi s t → IsReady user clock abi s → InPast s → InPast t
  TimedRun-IsStamped stop ready v = v
  TimedRun-IsStamped (next st run) ready v =
      TimedRun-IsStamped run (TimedStep-IsReady user clock abi st ready)
        (TimedStep-IsStamped st ready v)

  -- In every run from the start, a complete task ended at or after its submission, and the time that a
  -- query reports for it is the time from its submission to its end, its wait in the queue included, in
  -- microseconds rounded down, as long as the product with 1000000 fits into 64 bits.
  pub exec_usec_lem :
      {s : Timed} (i : ℕ)
      → TimedRun user clock abi timed_boot s
      → (task_of s.sys.dev i).state ≡ complete
      → let t = task_of s.sys.dev i in
        let took = t.complete_jiffies - t.submit_jiffies in
        took * 1000000 < 2 ^ 64
        → (t.submit_jiffies ≤ t.complete_jiffies)
          × ((status_of clock t).exec_usec ≡ took * 1000000 / clock.hz)
  unfolding status_of
  exec_usec_lem {s} i run done fits =
      let (v, soon) =
        TimedRun-IsStamped run (boot-IsReady user clock abi) (boot-IsStamped, omega arith) in
      let t : Task = task_of s.sys.dev i in
      let order : t.submit_jiffies ≤ t.complete_jiffies = v.ended i done in
      (
        order,
        rw (elapsed_lem t.complete_jiffies t.submit_jiffies order (omega (arith, v.past i, soon)))
            (ap (λ n. n / clock.hz) (omega (arith, fits))),
      )
