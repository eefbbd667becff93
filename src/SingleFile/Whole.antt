-- ===== src/SingleFile/Whole.antt =====
-- The driver in one file at work: its ioctl handler and its threads, in any order.
use cortex_forge_driver.Base.{ℕ, ◌<◌, ◌≡◌, [], ◌++◌, write, ap, ◌∙◌, sym, subst}
use cortex_forge_driver.Accel.{num_accelerators}
use cortex_forge_driver.Kernel.{UserMemory, Clock}
use cortex_forge_driver.Uapi.Ioctl.{IoctlAbi}
use cortex_forge_driver.Device.{zero_dev}
use cortex_forge_driver.Worker.{testing, Moment}
use cortex_forge_driver.System.{
  System, boot, taken, call, work, Reach, start, later, after_call, after_work,
}
use cortex_forge_driver.System.Steps.{Reach-IsSound}
use cortex_forge_driver.SingleFile.Ioctl as Single
use cortex_forge_driver.SingleFile.Same.{single_file_ioctl}
use cortex_forge_driver.SingleFile.Thread.{thread_step, thread_step_lem}
use cortex_forge_driver.SingleFile.Setup.{setup, setup_lem}

-- After a probe that succeeds.
abbrev pub single_boot : System
single_boot = record { dev = setup zero_dev; pc = λ _. testing; started = λ _. [] }

module _ (user : UserMemory) (clock : Clock) (abi : IoctlAbi) where
  open user use {Mem}

  abbrev pub single_call : System → ℕ → Mem → ℕ → ℕ → System
  single_call s cmd m uarg now = record s {
    dev = (Single.cortex_forge_ioctl user clock abi s.dev cmd m uarg now).1;
  }

  abbrev pub single_work : System → ℕ → Moment → System
  single_work s a e =
      let (d, p) = thread_step clock e s.dev a (s.pc a) in
      record {
        dev = d;
        pc = write s.pc a p;
        started = write s.started a (taken s.dev a (s.pc a) ++ s.started a);
      }

  pub data SingleReach : System → Type 0 where
    boots : SingleReach single_boot
    calls :
        {s : System} (cmd : ℕ) (m : Mem) (uarg now : ℕ)
        → SingleReach s
        → SingleReach (single_call s cmd m uarg now)
    works :
        {s : System} (a : ℕ) (e : Moment)
        → a < num_accelerators
        → SingleReach s
        → SingleReach (single_work s a e)

  single_boot_lem : single_boot ≡ boot
  single_boot_lem = ap (λ d. record boot { dev = d }) (setup_lem zero_dev)

  single_call_lem :
      {s : System} (cmd : ℕ) (m : Mem) (uarg now : ℕ)
      → Reach user clock abi s
      → single_call s cmd m uarg now ≡ after_call user clock abi s cmd m uarg now
  single_call_lem {s} cmd m uarg now r =
      ap (λ x. record s { dev = x.1 })
        (single_file_ioctl user clock abi s.dev cmd m uarg now
          (Reach-IsSound user clock abi r).order)

  single_work_lem :
      (s : System) (a : ℕ) (e : Moment) → single_work s a e ≡ after_work user clock abi s a e
  single_work_lem s a e =
      ap
        (λ x. record {
          dev = x.0;
          pc = write s.pc a x.1;
          started = write s.started a (taken s.dev a (s.pc a) ++ s.started a);
        })
        (thread_step_lem clock e s.dev a (s.pc a))

  single_to_built : {s : System} → SingleReach s → Reach user clock abi s
  single_to_built boots = subst (Reach user clock abi) (sym single_boot_lem) start
  single_to_built (calls cmd m uarg now r) =
      later (single_to_built r)
        (call cmd m uarg now (single_call_lem cmd m uarg now (single_to_built r)))
  single_to_built (works {s} a e lt r) =
      later (single_to_built r) (work a e lt (single_work_lem s a e))

  built_to_single : {s : System} → Reach user clock abi s → SingleReach s
  built_to_single start = subst SingleReach single_boot_lem boots
  built_to_single (later {s} {t} r (call cmd m uarg now e)) =
      subst SingleReach (single_call_lem cmd m uarg now r ∙ sym e)
        (calls cmd m uarg now (built_to_single r))
  built_to_single (later {s} {t} r (work a m lt e)) =
      subst SingleReach (single_work_lem s a m ∙ sym e) (works a m lt (built_to_single r))

  -- The states that the driver in one file can reach, by ioctl calls and by steps of its threads in any
  -- order from a probe that succeeds, are those that the built driver can reach.
  pub single_file_Reach :
      (s : System)
      → (SingleReach s → Reach user clock abi s) × (Reach user clock abi s → SingleReach s)
  single_file_Reach s = (single_to_built, built_to_single)
