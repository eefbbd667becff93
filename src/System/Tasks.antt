-- ===== src/System/Tasks.antt =====
-- The life of an accepted task.
use cortex_forge_driver.System.{System, boot, Step, call, work, Reach, start, later}
use cortex_forge_driver.System.Sound.{IsSound}
use cortex_forge_driver.System.Steps.{Reach-IsSound}
use cortex_forge_driver.System.Targets.{
  IsPlaced, worker_step-IsPlaced, accept-IsPlaced, cancel-IsPlaced,
}
use cortex_forge_driver.Device.{accel_at, task_of, init_device, Dev}
use cortex_forge_driver.Kernel.{Clock, UserMemory}
use cortex_forge_driver.Accel.{num_accelerators, accel_init}
use cortex_forge_driver.Base.{
  ==-ne, ==_refl, ◌∙◌, ℕ_discrete, ◌==◌, inr, refl, inl, zero, Bool-cases, suc, false, ◌≡◌, ◌≢◌,
  sym, [], List, subst, ◌<◌, arith, ℕ,
}
use cortex_forge_driver.System.Placement.{in_lane}
use cortex_forge_driver.Worker.{Pc}
use cortex_forge_driver.Task.Slots.{task_pool_init-IsInOrder, next_task_id-task_pool_init}
use cortex_forge_driver.Uapi.Ioctl.{IoctlAbi}
use cortex_forge_driver.Chardev.Frame.{accepts, cancels, ioctl-Effect, unchanged, Effect}
use cortex_forge_driver.Task.{failed}

boot_lane_empty : (a i : ℕ) → in_lane (accel_at boot.dev a) [] i ≡ false
unfolding init_device accel_init
boot_lane_empty zero i = refl
boot_lane_empty (suc zero) i = refl
boot_lane_empty (suc (suc zero)) i = refl
boot_lane_empty (suc (suc (suc a))) i = refl

boot-IsPlaced : IsPlaced boot.dev boot.started
unfolding init_device
boot-IsPlaced = record {
  own = λ a i h. cc (boot_lane_empty a i, h);
  placed = λ i h. absurd (omega (arith, next_task_id-task_pool_init));
  never_failed = λ i q.
      cc (task_pool_init-IsInOrder.unissued i (omega (arith, next_task_id-task_pool_init)), q);
}

Effect-IsPlaced :
    {now : ℕ} {d d' : Dev} (pc : ℕ → Pc) (log : ℕ → List ℕ)
    → Effect now d d'
    → IsSound d pc log
    → IsPlaced d log
    → IsPlaced d' log
Effect-IsPlaced pc log (unchanged e) s v = rw e v
Effect-IsPlaced {d} pc log (cancels id e) s v = rw e (cancel-IsPlaced d log id v)
Effect-IsPlaced {now} {d} pc log (accepts desc acc h e) s v =
    rw e (accept-IsPlaced d pc log desc now acc h s v)

module _ (user : UserMemory) (clock : Clock) (abi : IoctlAbi) where
  Step-IsPlaced :
      {s t : System}
      → Step user clock abi s t
      → IsSound s.dev s.pc s.started
      → IsPlaced s.dev s.started
      → IsPlaced t.dev t.started
  Step-IsPlaced {s} (call cmd m uarg now e) sound v =
      subst (λ (x : System). IsPlaced x.dev x.started) (sym e)
        (Effect-IsPlaced s.pc s.started
          (ioctl-Effect user clock abi s.dev cmd m uarg now sound.order) sound v)
  Step-IsPlaced {s} (work a m lt e) sound v =
      subst (λ (x : System). IsPlaced x.dev x.started) (sym e)
        (worker_step-IsPlaced clock m s.dev s.started a (s.pc a) (omega (arith, sound.three)) v)

  pub Reach-IsPlaced : {s : System} → Reach user clock abi s → IsPlaced s.dev s.started
  Reach-IsPlaced start = boot-IsPlaced
  Reach-IsPlaced (later r st) = Step-IsPlaced st (Reach-IsSound user clock abi r) (Reach-IsPlaced r)

  -- In every reachable state each accepted task has a valid accelerator type, and it is in the lane of
  -- an accelerator, its waiting queue and the tasks its worker has taken, exactly when that is the
  -- accelerator it was submitted to.
  pub accepted_task_placed :
      {s : System}
      → Reach user clock abi s
      → (i a : ℕ) → i < s.dev.pool.next_task_id
      → ((task_of s.dev i).accel_type < num_accelerators)
        × (in_lane (accel_at s.dev a) (s.started a) i ≡ (a == (task_of s.dev i).accel_type))
  accepted_task_placed {s} r i a h = (((Reach-IsPlaced r).placed i h).0, lane_of a)
    where
      lane_of :
          (b : ℕ) → in_lane (accel_at s.dev b) (s.started b) i ≡ (b == (task_of s.dev i).accel_type)
      lane_of b = elim (ℕ_discrete b (task_of s.dev i).accel_type) [
        | yes same ↦
            rw same (((Reach-IsPlaced r).placed i h).1 ∙ sym (==_refl (task_of s.dev i).accel_type))
        | no other ↦ elim (Bool-cases (in_lane (accel_at s.dev b) (s.started b) i)) [
          | inl there ↦ absurd (other (sym ((Reach-IsPlaced r).own b i there)))
          | inr gone ↦ gone ∙ sym (==-ne b (task_of s.dev i).accel_type other)
        ]
      ]

  -- No task is ever in the state FAILED, in any reachable state.
  pub never_failed_lem :
      {s : System} → Reach user clock abi s → (i : ℕ) → (task_of s.dev i).state ≢ failed
  never_failed_lem r = (Reach-IsPlaced r).never_failed
