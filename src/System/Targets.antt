-- ===== src/System/Targets.antt =====
-- Every accepted task stays with the accelerator that it was submitted to, and no task ever fails.
use cortex_forge_driver.System.{taken}
use cortex_forge_driver.System.Sound.{IsSound}
use cortex_forge_driver.System.Placement.{in_lane, lane-worker_step, in_lane-lt, has-snoc}
use cortex_forge_driver.Worker.{
  Pc, locking, starting, stamping, completing, clearing, signalling, Moment, worker_step,
}
use cortex_forge_driver.Device.{make_pending, enqueue, accel_at, task_of, Dev}
use cortex_forge_driver.Kernel.{Clock}
use cortex_forge_driver.Base.{
  get_or-modify_self, ◌&&◌, subst, ◌==◌, get_or-modify_ne, suc, ◌||◌, ℕ_discrete, refl, arith, sym,
  get_or-modify_map, ◌∙◌, ◌++◌, write, true, ap, length, ◌≢◌, ◌<◌, ◌≡◌, List, ℕ,
}
use cortex_forge_driver.Chardev.Frame.{cancel_in}
use cortex_forge_driver.Uapi.{TaskDesc}
use cortex_forge_driver.Task.{zero_task, Task, task_at, Pool, max_tasks, failed}
use cortex_forge_driver.Chardev.Submit.{accept-task, accept, IsAcceptable}
use cortex_forge_driver.Accel.{zero_accel, Accel, num_accelerators}
use cortex_forge_driver.Worker.Frame.{next_task_id-worker_step, pool-take_head}
use cortex_forge_driver.Task.Slots.{get_or-modify_keeps}
use cortex_forge_driver.Task.Issue.{get_or-task_cancel}
use cortex_forge_driver.Chardev.{fill}

-- A worker's step writes RUNNING or COMPLETE to a state, and nothing to a target.
module _ (clock : Clock) (e : Moment) (d : Dev) (a i : ℕ) where
  pub accel_type-worker_step :
      (p : Pc) → (task_of (worker_step clock e d a p).0 i).accel_type ≡ (task_of d i).accel_type
  unfolding worker_step
  accel_type-worker_step locking =
      ap (λ (p : Pool). (task_at p i).accel_type) (pool-take_head d a (accel_at d a).task_queue)
  accel_type-worker_step (starting j) =
      get_or-modify_map (λ (t : Task). t.accel_type) d.pool.tasks j i _ zero_task (λ t. refl)
  accel_type-worker_step (stamping j) =
      get_or-modify_map (λ (t : Task). t.accel_type) d.pool.tasks j i _ zero_task (λ t. refl)
  accel_type-worker_step (completing j) =
      get_or-modify_map (λ (t : Task). t.accel_type) d.pool.tasks j i _ zero_task (λ t. refl)
  accel_type-worker_step (clearing j) =
      get_or-modify_map (λ (t : Task). t.accel_type) d.pool.tasks j i _ zero_task (λ t. refl)
  accel_type-worker_step (signalling j) =
      get_or-modify_map (λ (t : Task). t.accel_type) d.pool.tasks j i _ zero_task (λ t. refl)
  accel_type-worker_step _ = refl

  pub failed-worker_step :
      (p : Pc)
      → (task_of d i).state ≢ failed
      → (task_of (worker_step clock e d a p).0 i).state ≢ failed
  unfolding worker_step
  failed-worker_step locking h = rw (pool-take_head d a (accel_at d a).task_queue) h
  failed-worker_step (starting j) h =
      get_or-modify_keeps (λ t. t.state ≢ failed) d.pool.tasks j i _ (λ t k q. cc) h
  failed-worker_step (stamping j) h =
      get_or-modify_keeps (λ t. t.state ≢ failed) d.pool.tasks j i _ (λ t k. k) h
  failed-worker_step (completing j) h =
      get_or-modify_keeps (λ t. t.state ≢ failed) d.pool.tasks j i _ (λ t k q. cc) h
  failed-worker_step (clearing j) h =
      get_or-modify_keeps (λ t. t.state ≢ failed) d.pool.tasks j i _ (λ t k. k) h
  failed-worker_step (signalling j) h =
      get_or-modify_keeps (λ t. t.state ≢ failed) d.pool.tasks j i _ (λ t k. k) h
  failed-worker_step _ h = h

-- `own`: what is in the lane of an accelerator was submitted to it. `placed`: what was accepted is in
-- the lane of its accelerator.
pub record IsPlaced (d : Dev) (log : ℕ → List ℕ) : Type 0 where
  pub own : (a i : ℕ) → in_lane (accel_at d a) (log a) i ≡ true → (task_of d i).accel_type ≡ a
  pub placed :
      (i : ℕ)
      → i < d.pool.next_task_id
      → ((task_of d i).accel_type < num_accelerators)
        × (in_lane (accel_at d (task_of d i).accel_type) (log (task_of d i).accel_type) i ≡ true)
  pub never_failed : (i : ℕ) → (task_of d i).state ≢ failed

pub worker_step-IsPlaced :
    (clock : Clock) (e : Moment) (d : Dev) (log : ℕ → List ℕ) (a : ℕ) (p : Pc)
    → a < length d.accelerators
    → IsPlaced d log
    → IsPlaced (worker_step clock e d a p).0 (write log a (taken d a p ++ log a))
worker_step-IsPlaced clock e d log a p lt v = record {
  own = λ b i h.
      accel_type-worker_step clock e d a i p
      ∙ v.own b i (sym (lane-worker_step clock e d log a b i p lt) ∙ h);
  placed = λ i h.
      let (target, lane) = v.placed i (omega (arith, next_task_id-worker_step clock e d a p)) in
      rw (accel_type-worker_step clock e d a i p)
        (target, lane-worker_step clock e d log a (task_of d i).accel_type i p lt ∙ lane);
  never_failed = λ i. failed-worker_step clock e d a i p (v.never_failed i);
}

-- The lanes and the slots after a task has been accepted.
module _ (d : Dev) (desc : TaskDesc) (now : ℕ) where
  lane_target :
      (log : List ℕ) (i : ℕ)
      → desc.accel_type < length d.accelerators
      → in_lane (accel_at (accept d desc now) desc.accel_type) log i
        ≡ (in_lane (accel_at d desc.accel_type) log i || d.pool.next_task_id == i)
  lane_target log i lt =
      ap (λ (x : Accel). in_lane x log i)
        (get_or-modify_self d.accelerators desc.accel_type (enqueue d.pool.next_task_id) zero_accel
          lt)
      ∙ ground (arith, has-snoc i (accel_at d desc.accel_type).task_queue d.pool.next_task_id)

  lane_other :
      (log : List ℕ) (a i : ℕ)
      → desc.accel_type ≢ a
      → in_lane (accel_at (accept d desc now) a) log i ≡ in_lane (accel_at d a) log i
  lane_other log a i ne =
      ap (λ (x : Accel). in_lane x log i)
        (get_or-modify_ne d.accelerators desc.accel_type a (enqueue d.pool.next_task_id) zero_accel
          ne)

  pub task_other : (i : ℕ) → d.pool.next_task_id ≢ i → task_of (accept d desc now) i ≡ task_of d i
  task_other i ne =
      get_or-modify_ne _ d.pool.next_task_id i (make_pending now) zero_task ne
      ∙ get_or-modify_ne _ d.pool.next_task_id i (fill desc) zero_task ne
      ∙ get_or-modify_ne d.pool.tasks d.pool.next_task_id i _ zero_task ne

-- Both lemmas as one: a lane gains at most the new slot, and only the target's.
pub lane_accept :
    (d : Dev) (desc : TaskDesc) (now : ℕ) (log : ℕ → List ℕ) (a i : ℕ)
    → desc.accel_type < length d.accelerators
    → in_lane (accel_at (accept d desc now) a) (log a) i
      ≡ (in_lane (accel_at d a) (log a) i || (desc.accel_type == a && d.pool.next_task_id == i))
lane_accept d desc now log a i lt = elim (ℕ_discrete desc.accel_type a) [
  | yes e ↦ subst Grown e (lane_target d desc now (log desc.accel_type) i lt ∙ ground arith)
  | no ne ↦ lane_other d desc now (log a) a i ne ∙ ground arith
]
  where
    Grown : ℕ → Type 0
    Grown k =
        in_lane (accel_at (accept d desc now) k) (log k) i
        ≡ (in_lane (accel_at d k) (log k) i || (desc.accel_type == k && d.pool.next_task_id == i))

module _ (d : Dev) (pc : ℕ → Pc) (log : ℕ → List ℕ) (desc : TaskDesc) (now : ℕ)
    (acc : IsAcceptable desc) (h : d.pool.next_task_id < max_tasks) (s : IsSound d pc log)
    (v : IsPlaced d log) where
  new_target : (task_of (accept d desc now) d.pool.next_task_id).accel_type ≡ desc.accel_type
  new_target = ap (λ (t : Task). t.accel_type) (accept-task d desc now h s.order)

  accept-own :
      (a i : ℕ)
      → in_lane (accel_at (accept d desc now) a) (log a) i ≡ true
      → (task_of (accept d desc now) i).accel_type ≡ a
  accept-own a i there = elim (ℕ_discrete d.pool.next_task_id i) [
    | yes e ↦
        subst (λ k. (task_of (accept d desc now) k).accel_type ≡ a) e
          (new_target
            ∙ ground (
              arith,
              there,
              lane_accept d desc now log a i (omega (arith, acc.accel, s.three)),
              in_lane-lt i (s.lanes a),
            ))
    | no ne ↦
        ap (λ (t : Task). t.accel_type) (task_other d desc now i ne)
        ∙ v.own a i (
            ground
              (arith, there, lane_accept d desc now log a i (omega (arith, acc.accel, s.three))))
  ]

  accept-placed :
      (i : ℕ)
      → i < suc d.pool.next_task_id
      → ((task_of (accept d desc now) i).accel_type < num_accelerators)
        × (in_lane
              (accel_at (accept d desc now) (task_of (accept d desc now) i).accel_type)
              (log (task_of (accept d desc now) i).accel_type)
              i
            ≡ true)
  accept-placed i lt = elim (ℕ_discrete d.pool.next_task_id i) [
    | yes e ↦ subst Here e (
        rw new_target (
          acc.accel,
          lane_accept d desc now log desc.accel_type d.pool.next_task_id
                (omega (arith, acc.accel, s.three))
              ∙ ground arith,
        ))
    | no ne ↦
        let (target, lane) = v.placed i (omega arith) in
        rw (task_other d desc now i ne) (
          target,
          lane_accept d desc now log (task_of d i).accel_type i (omega (arith, acc.accel, s.three))
              ∙ ground (arith, lane),
        )
  ]
    where
      Here : ℕ → Type 0
      Here k =
          ((task_of (accept d desc now) k).accel_type < num_accelerators)
          × (in_lane (accel_at (accept d desc now) (task_of (accept d desc now) k).accel_type)
                (log (task_of (accept d desc now) k).accel_type) k
              ≡ true)

  accept-never_failed : (i : ℕ) → (task_of (accept d desc now) i).state ≢ failed
  accept-never_failed i = elim (ℕ_discrete d.pool.next_task_id i) [
    | yes e ↦
        subst (λ k. (task_of (accept d desc now) k).state ≢ failed) e
          (λ q. cc (ap (λ (t : Task). t.state) (accept-task d desc now h s.order), q))
    | no ne ↦ rw (task_other d desc now i ne) (v.never_failed i)
  ]

  pub accept-IsPlaced : IsPlaced (accept d desc now) log
  accept-IsPlaced = record {
    own = accept-own;
    placed = accept-placed;
    never_failed = accept-never_failed;
  }

pub cancel-IsPlaced :
    (d : Dev) (log : ℕ → List ℕ) (id : ℕ) → IsPlaced d log → IsPlaced (cancel_in d id) log
cancel-IsPlaced d log id v = record {
  own = λ a i h. target i ∙ v.own a i h;
  placed = λ i lt. rw (target i) (v.placed i lt);
  never_failed = λ i. ground (arith, get_or-task_cancel id d.pool.tasks i, v.never_failed i);
}
  where
    target : (i : ℕ) → (task_of (cancel_in d id) i).accel_type ≡ (task_of d i).accel_type
    target i = ground (arith, get_or-task_cancel id d.pool.tasks i)
