-- ===== src/System/Steps.antt =====
-- Every step of a worker and every ioctl call keeps the invariant, so it holds in all reachable states.
use cortex_forge_driver.Base.{
  zero, write, refl, arith, suc, write_same, ltb, ◌∙◌, length-modify, if_cases, [], ◌++◌, sym,
  subst, ◌≡◌, ◌<◌, List, ℕ,
}
use cortex_forge_driver.System.{System, boot, taken, Step, call, work, Reach, start, later}
use cortex_forge_driver.System.Sound.{
  IsLane-unlink, IsLane-unload, lanes_write, IsLane-load, IsSound, move-IsSound, task-IsSound,
  accel-IsSound, take-IsSound,
}
use cortex_forge_driver.Worker.{
  is_running, Pc, testing, waiting, woken, locking, starting, loading, timing, spinning, napping,
  sleeping, stamping, completing, clearing, unloading, signalling, unlinking, exited, Moment,
  worker_step,
}
use cortex_forge_driver.Kernel.{UserMemory, Clock}
use cortex_forge_driver.Device.{task_of, enqueue, accel_at, init_device, Dev}
use cortex_forge_driver.System.Order.{
  after_latest, Between, Between-snoc, IsLane-eq, IsLane, loaded, holds,
}
use cortex_forge_driver.Chardev.Frame.{accepts, cancels, unchanged, ioctl-Effect, Effect}
use cortex_forge_driver.Uapi.{TaskDesc}
use cortex_forge_driver.Task.{zero_pool, task_pool_init, elapsed, max_tasks}
use cortex_forge_driver.Accel.{zero_accel, Accel, num_accelerators, accel_init}
use cortex_forge_driver.Chardev.Submit.{accept-IsInOrder, accept, IsAcceptable}
use cortex_forge_driver.Uapi.Ioctl.{IoctlAbi}
use cortex_forge_driver.Task.Slots.{task_pool_init-IsInOrder}
use cortex_forge_driver.Task.Issue.{task_cancel-IsInOrder}

module _ (clock : Clock) (e : Moment) (d : Dev) (pc : ℕ → Pc) (log : ℕ → List ℕ) (a : ℕ) where
  -- The places that leave the task and the load as they are.
  abbrev Alike : Pc → Pc → Type 0
  Alike p p' = (holds p' ≡ holds p) × (loaded p' ≡ loaded p)

  pub worker_step-IsSound :
      (p : Pc)
      → a < num_accelerators
      → pc a ≡ p
      → IsSound d pc log
      → IsSound
          (worker_step clock e d a p).0
          (write pc a (worker_step clock e d a p).1)
          (write log a (taken d a p ++ log a))
  unfolding worker_step
  worker_step-IsSound testing lt at v =
      move-IsSound d pc log a testing _ lt at v
        (if_cases (Alike testing) (accel_at d a).running (refl, refl) (refl, refl))
  worker_step-IsSound waiting lt at v = move-IsSound d pc log a waiting woken lt at v (refl, refl)
  worker_step-IsSound woken lt at v =
      move-IsSound d pc log a woken _ lt at v
        (if_cases (Alike woken) (accel_at d a).running (refl, refl) (refl, refl))
  worker_step-IsSound locking lt at v =
      take-IsSound d pc log a (accel_at d a).task_queue lt at refl v
  worker_step-IsSound (starting i) lt at v =
      task-IsSound d pc log a (starting i) (loading i) i _ lt at v refl (refl, refl) (λ t. refl)
        (λ t u. refl)
  worker_step-IsSound (loading i) lt at v =
      accel-IsSound d pc log a (timing i) _ [] lt v (IsLane-load (v.lanes a) at)
  worker_step-IsSound (timing i) lt at v =
      move-IsSound d pc log a (timing i) _ lt at v
        (if_cases (Alike (timing i)) (ltb 0 (task_of d i).timeout_ms) (refl, refl) (refl, refl))
  worker_step-IsSound (spinning i s t) lt at v =
      move-IsSound d pc log a (spinning i s t) _ lt at v (
        if_cases (Alike (spinning i s t)) (ltb (elapsed e.now s) t)
          (if_cases (Alike (spinning i s t)) (is_running (task_of d i).state) (refl, refl)
            (refl, refl))
          (refl, refl))
  worker_step-IsSound (napping i s t) lt at v =
      move-IsSound d pc log a (napping i s t) _ lt at v
        (if_cases (Alike (napping i s t)) e.should_stop (refl, refl) (refl, refl))
  worker_step-IsSound (sleeping i) lt at v =
      move-IsSound d pc log a (sleeping i) (stamping i) lt at v (refl, refl)
  worker_step-IsSound (stamping i) lt at v =
      task-IsSound d pc log a (stamping i) (completing i) i _ lt at v refl (refl, refl) (λ t. refl)
        (λ t u. u)
  worker_step-IsSound (completing i) lt at v =
      task-IsSound d pc log a (completing i) (clearing i) i _ lt at v refl (refl, refl) (λ t. refl)
        (λ t u. refl)
  worker_step-IsSound (clearing i) lt at v =
      task-IsSound d pc log a (clearing i) (unloading i) i _ lt at v refl (refl, refl) (λ t. refl)
        (λ t u. u)
  worker_step-IsSound (unloading i) lt at v =
      accel-IsSound d pc log a (signalling i) _ [] lt v (IsLane-unload (v.lanes a) at)
  worker_step-IsSound (signalling i) lt at v =
      task-IsSound d pc log a (signalling i) (unlinking i) i _ lt at v refl (refl, refl) (λ t. refl)
        (λ t u. u)
  worker_step-IsSound (unlinking i) lt at v =
      accel-IsSound d pc log a testing _ [] lt v (IsLane-unlink (v.lanes a) at)
  worker_step-IsSound exited lt at v = move-IsSound d pc log a exited exited lt at v (refl, refl)

accept-IsSound :
    (d : Dev) (pc : ℕ → Pc) (log : ℕ → List ℕ) (desc : TaskDesc) (now : ℕ)
    → IsAcceptable desc
    → d.pool.next_task_id < max_tasks
    → IsSound d pc log
    → IsSound (accept d desc now) pc log
accept-IsSound d pc log desc now acc h v = record {
  order = accept-IsInOrder d desc now h v.order;
  three = length-modify d.accelerators desc.accel_type (enqueue d.pool.next_task_id) ∙ v.three;
  lanes = λ b.
      IsLane-eq refl (sym (write_same pc desc.accel_type b))
        (sym (write_same log desc.accel_type b))
        (lanes_write d.pool.next_task_id (suc d.pool.next_task_id) d.accelerators pc log
          desc.accel_type (enqueue d.pool.next_task_id) (pc desc.accel_type) [] (omega arith)
          (omega (arith, v.three, acc.accel)) v.lanes
          (record {
            falling = lane.falling;
            queue =
                Between-snoc (after_latest (log desc.accel_type))
                  (accel_at d desc.accel_type).task_queue d.pool.next_task_id lane.queue;
            latest = lane.latest;
            active = lane.active;
            load = lane.load;
          })
          b);
}
  where
    lane :
        IsLane d.pool.next_task_id
          (accel_at d desc.accel_type)
          (pc desc.accel_type)
          (log desc.accel_type)
    lane = v.lanes desc.accel_type

pub Effect-IsSound :
    {now : ℕ} {d d' : Dev} (pc : ℕ → Pc) (log : ℕ → List ℕ)
    → Effect now d d'
    → IsSound d pc log
    → IsSound d' pc log
Effect-IsSound pc log (unchanged e) v = rw e v
Effect-IsSound {d} pc log (cancels id e) v =
    subst (λ x. IsSound x pc log) (sym e)
      (record { order = task_cancel-IsInOrder d.pool id v.order; three = v.three; lanes = v.lanes })
Effect-IsSound {now} {d} pc log (accepts desc acc h e) v =
    subst (λ x. IsSound x pc log) (sym e) (accept-IsSound d pc log desc now acc h v)

idle-IsLane :
    (n : ℕ) (x : Accel)
    → x.task_queue ≡ []
    → x.active_tasks ≡ []
    → x.load_percent ≡ 0
    → IsLane n x testing []
idle-IsLane n x q act l = record {
  falling = tt;
  queue = subst (λ js. Between 0 js n) (sym q) (omega arith);
  latest = tt;
  active = act;
  load = l;
}

boot-IsLane : (n a : ℕ) → IsLane n (accel_at boot.dev a) testing []
unfolding init_device accel_init
boot-IsLane n zero = idle-IsLane n _ refl refl refl
boot-IsLane n (suc zero) = idle-IsLane n _ refl refl refl
boot-IsLane n (suc (suc zero)) = idle-IsLane n _ refl refl refl
boot-IsLane n (suc (suc (suc a))) = idle-IsLane n zero_accel refl refl refl

boot-IsSound : IsSound boot.dev boot.pc boot.started
unfolding init_device
boot-IsSound = record {
  order = task_pool_init-IsInOrder;
  three = refl;
  lanes = λ a. boot-IsLane (task_pool_init zero_pool).next_task_id a;
}

module _ (user : UserMemory) (clock : Clock) (abi : IoctlAbi) where
  -- One step of the system.
  pub Step-IsSound :
      {s t : System}
      → Step user clock abi s t
      → IsSound s.dev s.pc s.started
      → IsSound t.dev t.pc t.started
  Step-IsSound {s} (call cmd m uarg now e) v =
      subst (λ (x : System). IsSound x.dev x.pc x.started) (sym e)
        (Effect-IsSound s.pc s.started (ioctl-Effect user clock abi s.dev cmd m uarg now v.order) v)
  Step-IsSound {s} (work a m lt e) v =
      subst (λ (x : System). IsSound x.dev x.pc x.started) (sym e)
        (worker_step-IsSound clock m s.dev s.pc s.started a (s.pc a) lt refl v)

  pub Reach-IsSound : {s : System} → Reach user clock abi s → IsSound s.dev s.pc s.started
  Reach-IsSound start = boot-IsSound
  Reach-IsSound (later r st) = Step-IsSound st (Reach-IsSound r)
