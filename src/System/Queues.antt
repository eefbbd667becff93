-- ===== src/System/Queues.antt =====
-- Queues, active lists and loads over the life of the driver.
use cortex_forge_driver.Base.{refl, inl, sym, inr, subst, ◌⊎◌, ◌≡◌, ℕ}
use cortex_forge_driver.System.{System, Reach}
use cortex_forge_driver.System.Steps.{Reach-IsSound}
use cortex_forge_driver.System.Order.{Falling, Between, after_latest, holds, to_list, loaded}
use cortex_forge_driver.Kernel.{Clock, UserMemory}
use cortex_forge_driver.Worker.{
  unloading, clearing, completing, stamping, sleeping, napping, spinning, timing, Pc,
}
use cortex_forge_driver.Uapi.Ioctl.{IoctlAbi}
use cortex_forge_driver.Device.{accel_at}

loaded_le : (p : Pc) → (loaded p ≡ 0) ⊎ (loaded p ≡ 10)
loaded_le (timing i) = inr refl
loaded_le (spinning i s t) = inr refl
loaded_le (napping i s t) = inr refl
loaded_le (sleeping i) = inr refl
loaded_le (stamping i) = inr refl
loaded_le (completing i) = inr refl
loaded_le (clearing i) = inr refl
loaded_le (unloading i) = inr refl
loaded_le _ = inl refl

module _ (user : UserMemory) (clock : Clock) (abi : IoctlAbi) where
  -- In every reachable state the slots that the worker of an accelerator has taken so far, in the
  -- order of taking, and behind them the slots that wait in its queue, rise strictly and have all
  -- been handed out.
  queue_in_order :
      {s : System}
      → Reach user clock abi s
      → (a : ℕ)
      → Falling (s.started a)
        × Between (after_latest (s.started a)) (accel_at s.dev a).task_queue s.dev.pool.next_task_id
  queue_in_order {s} r a =
      let lane = (Reach-IsSound user clock abi r).lanes a in (lane.falling, lane.queue)

  -- In every reachable state the active list of an accelerator holds the one task that its worker is
  -- working on, and nothing if it works on none.
  pub active_tasks_lem :
      {s : System}
      → Reach user clock abi s
      → (a : ℕ) → (accel_at s.dev a).active_tasks ≡ to_list (holds (s.pc a))
  active_tasks_lem r a = ((Reach-IsSound user clock abi r).lanes a).active

  -- In every reachable state the load of an accelerator is 0 or 10 percent.
  load_percent_lem :
      {s : System}
      → Reach user clock abi s
      → (a : ℕ) → ((accel_at s.dev a).load_percent ≡ 0) ⊎ ((accel_at s.dev a).load_percent ≡ 10)
  load_percent_lem {s} r a =
      subst (λ (n : ℕ). (n ≡ 0) ⊎ (n ≡ 10)) (sym ((Reach-IsSound user clock abi r).lanes a).load)
        (loaded_le (s.pc a))
