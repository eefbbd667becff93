-- ===== src/System/Alive.antt =====
-- The workers of a running driver do not stop: nothing clears an accelerator's flag.
use cortex_forge_driver.Base.{
  [], ltb, ◌∷◌, ℕ, zero, suc, List, true, ◌≡◌, ◌≢◌, ◌<◌, ◌∙◌, refl, arith, sym, subst, if_cases,
  write, write_self, write_ne, ℕ_discrete,
}
use cortex_forge_driver.Accel.{Accel, num_accelerators, accel_init}
use cortex_forge_driver.Device.{task_of, Dev, accel_at, init_device}
use cortex_forge_driver.Kernel.{Clock, UserMemory}
use cortex_forge_driver.Uapi.Ioctl.{IoctlAbi}
use cortex_forge_driver.Worker.{
  is_running, Pc, testing, woken, locking, timing, spinning, napping, exited, Moment, worker_step,
  take_head,
}
use cortex_forge_driver.Chardev.Frame.{Effect, ioctl-Effect}
use cortex_forge_driver.System.{System, boot, Step, Reach, start, later, call, work}
use cortex_forge_driver.System.Fixed.{fixed-worker_step, fixed-Effect}
use cortex_forge_driver.System.Sound.{IsSound}
use cortex_forge_driver.System.Steps.{Reach-IsSound}
use cortex_forge_driver.Task.{elapsed}

-- The flags of the three accelerators are set, and no worker has returned.
pub record IsAlive (d : Dev) (pc : ℕ → Pc) : Type 0 where
  pub running : (a : ℕ) → a < num_accelerators → (accel_at d a).running ≡ true
  pub no_exit : (a : ℕ) → pc a ≢ exited

take_head-no_exit : (d : Dev) (a : ℕ) (queue : List ℕ) → (take_head d a queue).1 ≢ exited
unfolding take_head
take_head-no_exit d a [] = λ q. cc
take_head-no_exit d a (i ∷ rest) = λ q. cc

worker_step-no_exit :
    (clock : Clock) (e : Moment) (d : Dev) (a : ℕ) (p : Pc)
    → (accel_at d a).running ≡ true
    → p ≢ exited
    → (worker_step clock e d a p).1 ≢ exited
unfolding worker_step
worker_step-no_exit clock e d a testing up h = λ q. cc
worker_step-no_exit clock e d a woken up h = λ q. cc
worker_step-no_exit clock e d a locking up h = take_head-no_exit d a (accel_at d a).task_queue
worker_step-no_exit clock e d a (timing i) up h =
    if_cases (λ p. p ≢ exited) (ltb 0 (task_of d i).timeout_ms) (λ q. cc) (λ q. cc)
worker_step-no_exit clock e d a (spinning i begin timeout) up h =
    if_cases (λ p. p ≢ exited) (ltb (elapsed e.now begin) timeout)
      (if_cases (λ p. p ≢ exited) (is_running (task_of d i).state) (λ q. cc) (λ q. cc)) (λ q. cc)
worker_step-no_exit clock e d a (napping i begin timeout) up h =
    if_cases (λ p. p ≢ exited) e.should_stop (λ q. cc) (λ q. cc)
worker_step-no_exit clock e d a exited up h = absurd (h refl)
worker_step-no_exit clock e d a _ up h = λ q. cc

work-IsAlive :
    (clock : Clock) (e : Moment) (d : Dev) (pc : ℕ → Pc) (a : ℕ)
    → a < num_accelerators
    → IsAlive d pc
    → IsAlive (worker_step clock e d a (pc a)).0 (write pc a (worker_step clock e d a (pc a)).1)
work-IsAlive clock e d pc a lt v = record {
  running = λ b l.
      fixed-worker_step (λ (x : Accel). x.running) (λ x q ac n. refl) clock e d a b (pc a)
      ∙ v.running b l;
  no_exit = λ b. elim (ℕ_discrete a b) [
    | yes same ↦
        subst (λ k. write pc a (worker_step clock e d a (pc a)).1 k ≢ exited) same
          (λ q.
            worker_step-no_exit clock e d a (pc a) (v.running a lt) (v.no_exit a)
              (sym (write_self pc a (worker_step clock e d a (pc a)).1) ∙ q))
    | no ne ↦ λ q. v.no_exit b (sym (write_ne pc a b (worker_step clock e d a (pc a)).1 ne) ∙ q)
  ];
}

Effect-IsAlive :
    {now : ℕ} {d d' : Dev} (pc : ℕ → Pc) → Effect now d d' → IsAlive d pc → IsAlive d' pc
Effect-IsAlive pc eff v = record {
  running = λ a l. fixed-Effect (λ (x : Accel). x.running) (λ x q ac n. refl) a eff ∙ v.running a l;
  no_exit = v.no_exit;
}

boot-IsAlive : IsAlive boot.dev boot.pc
unfolding init_device accel_init
boot-IsAlive = record { running = λ a l. boot_running a l; no_exit = λ a q. cc }
  where
    boot_running : (a : ℕ) → a < num_accelerators → (accel_at boot.dev a).running ≡ true
    boot_running zero l = refl
    boot_running (suc zero) l = refl
    boot_running (suc (suc zero)) l = refl
    boot_running (suc (suc (suc a))) l = absurd (omega (arith, l))

module _ (user : UserMemory) (clock : Clock) (abi : IoctlAbi) where
  Step-IsAlive :
      {s t : System}
      → Step user clock abi s t
      → IsSound s.dev s.pc s.started
      → IsAlive s.dev s.pc
      → IsAlive t.dev t.pc
  Step-IsAlive {s} (call cmd m uarg now e) sound v =
      subst (λ (x : System). IsAlive x.dev x.pc) (sym e)
        (Effect-IsAlive s.pc (ioctl-Effect user clock abi s.dev cmd m uarg now sound.order) v)
  Step-IsAlive {s} (work a m lt e) sound v =
      subst (λ (x : System). IsAlive x.dev x.pc) (sym e) (work-IsAlive clock m s.dev s.pc a lt v)

  pub Reach-IsAlive : {s : System} → Reach user clock abi s → IsAlive s.dev s.pc
  Reach-IsAlive start = boot-IsAlive
  Reach-IsAlive (later r st) = Step-IsAlive st (Reach-IsSound user clock abi r) (Reach-IsAlive r)
