-- ===== src/System/Liveness.antt =====
-- Every accepted task comes to its end.
use cortex_forge_driver.Base.{
  ap₂, ◌^◌, ℕ, ◌+◌, ◌≤◌, ◌<◌, ◌≡◌, ◌≢◌, ◌⊎◌, inl, inr, true, some, refl, arith, ap, subst, write,
  write_self, write_ne, ℕ_discrete,
}
use cortex_forge_driver.Accel.{Accel, num_accelerators}
use cortex_forge_driver.Kernel.{Clock, UserMemory}
use cortex_forge_driver.Uapi.Ioctl.{IoctlAbi}
use cortex_forge_driver.Device.{Dev, accel_at}
use cortex_forge_driver.Worker.{Pc, Moment, worker_step, exited}
use cortex_forge_driver.System.Timed.{worked, works, calls, own_step, Timed, TimedStep, IsReady}
use cortex_forge_driver.System.Progress.{
  calls-left, held_before, rank-same, accel_at-worker_step, IsWanted,
}
use cortex_forge_driver.System.Ahead.{steps_left-worker_step, queue_need-same, steps_left}
use cortex_forge_driver.System.Rank.{next_due, limit-worker_step, earliest, rank}
use cortex_forge_driver.System.Placement.{has}
use cortex_forge_driver.System.Order.{after_latest, holds}
use cortex_forge_driver.System.Sound.{IsSound}
use cortex_forge_driver.System.Steps.{Reach-IsSound}
use cortex_forge_driver.System.Alive.{Reach-IsAlive, IsAlive}
use cortex_forge_driver.System.Waiting.{queue-worker_step}
use cortex_forge_driver.Chardev.Frame.{ioctl-Effect}

pub rank_pos : (clock : Clock) (d : Dev) (due : ℕ) (p : Pc) → p ≢ exited → 0 < rank clock d due p
rank_pos clock d due exited ne = absurd (ne refl)
rank_pos clock d due _ ne = omega arith

-- The steps that the worker of `a` still needs, at most, to be done with the task `i` of its lane:
-- for each task of the queue up to `i`, 14 and twice its timeout in jiffies, and what is left of its
-- present round.
abbrev pub left : Clock → Timed → ℕ → ℕ → ℕ
left clock s a i =
    steps_left clock s.sys.dev (s.due a) (s.sys.pc a) (accel_at s.sys.dev a).task_queue i

abbrev pub IsWantedIn : Timed → ℕ → ℕ → Type 0
IsWantedIn s a i = IsWanted s.sys.dev s.sys.pc a i

module _ (user : UserMemory) (clock : Clock) (abi : IoctlAbi) where
  -- The worker's own step.
  own_left :
      (s : Timed) (a i : ℕ) (m : Moment)
      → a < num_accelerators
      → s.time ≤ m.now
      → m.now < 2 ^ 64
      → earliest (s.sys.pc a) (s.due a) ≤ m.now
      → IsReady user clock abi s
      → let (d', p') = worker_step clock m s.sys.dev a (s.sys.pc a) in
        (has i (accel_at d' a).task_queue ≡ true) ⊎ (holds p' ≡ some i)
        → IsWantedIn s a i
          × (steps_left clock d'
                (next_due m.now (s.sys.pc a) (s.due a))
                p'
                (accel_at d' a).task_queue
                i
              < left clock s a i)
  own_left s a i m lt le now ea v here = (before, fewer)
    where
      sound : IsSound s.sys.dev s.sys.pc s.sys.started
      sound = Reach-IsSound user clock abi v.reach

      alive : IsAlive s.sys.dev s.sys.pc
      alive = Reach-IsAlive user clock abi v.reach

      before : IsWantedIn s a i
      before = elim here [
        | inl there ↦ inl (
            queue-worker_step clock m s.sys.dev a a i (s.sys.pc a) (omega (arith, lt, sound.three))
              there)
        | inr held ↦ held_before clock m s.sys.dev a i (s.sys.pc a) held
      ]

      fewer :
          let (d', p') = worker_step clock m s.sys.dev a (s.sys.pc a) in
          steps_left clock d'
            (next_due m.now (s.sys.pc a) (s.due a))
            p'
            (accel_at d' a).task_queue
            i
          < left clock s a i
      fewer =
          steps_left-worker_step clock m s.sys.dev a i s.time (s.due a)
            (after_latest (s.sys.started a)) s.sys.dev.pool.next_task_id (s.sys.pc a)
            (omega (arith, lt, sound.three)) (alive.running a lt) (alive.no_exit a) (v.timely a) le
            now ea (sound.lanes a).queue before

  -- A step of another worker.
  other_left :
      (s : Timed) (a b i : ℕ) (m : Moment)
      → b ≢ a
      → let d' = (worker_step clock m s.sys.dev b (s.sys.pc b)).0 in
        steps_left clock d' (s.due a) (s.sys.pc a) (accel_at d' a).task_queue i ≡ left clock s a i
  other_left s a b i m ne = rw (accel_at-worker_step clock m s.sys.dev b a (s.sys.pc b) ne) (
      ap₂ (λ x y. x + y)
        (rank-same clock s.sys.dev (worker_step clock m s.sys.dev b (s.sys.pc b)).0 (s.due a)
          (s.sys.pc a) (λ j h. limit-worker_step clock m s.sys.dev b j (s.sys.pc b)))
        (queue_need-same clock s.sys.dev (worker_step clock m s.sys.dev b (s.sys.pc b)).0 i
          (accel_at s.sys.dev a).task_queue
          (λ j h. limit-worker_step clock m s.sys.dev b j (s.sys.pc b))))

  worked_own :
      (s : Timed) (a i : ℕ) (m : Moment)
      → a < num_accelerators
      → s.time ≤ m.now
      → m.now < 2 ^ 64
      → earliest (s.sys.pc a) (s.due a) ≤ m.now
      → IsReady user clock abi s
      → IsWantedIn (worked user clock abi s a m) a i
      → IsWantedIn s a i × (left clock (worked user clock abi s a m) a i < left clock s a i)
  worked_own s a i m lt le now ea v here =
      let (d', p') = worker_step clock m s.sys.dev a (s.sys.pc a) in
      let place : write s.sys.pc a p' a ≡ p' = write_self s.sys.pc a p' in
      rw (place, write_self s.due a (next_due m.now (s.sys.pc a) (s.due a)))
        (own_left s a i m lt le now ea v
          (subst (λ p. (has i (accel_at d' a).task_queue ≡ true) ⊎ (holds p ≡ some i)) place here))

  worked_other :
      (s : Timed) (a b i : ℕ) (m : Moment)
      → b ≢ a
      → IsWantedIn (worked user clock abi s b m) a i
      → IsWantedIn s a i × (left clock (worked user clock abi s b m) a i ≡ left clock s a i)
  worked_other s a b i m ne here =
      let (d', p') = worker_step clock m s.sys.dev b (s.sys.pc b) in
      let place : write s.sys.pc b p' a ≡ s.sys.pc a = write_ne s.sys.pc b a p' ne in
      let lane : accel_at d' a ≡ accel_at s.sys.dev a =
        accel_at-worker_step clock m s.sys.dev b a (s.sys.pc b) ne in
      (
        subst (λ p. (has i (accel_at s.sys.dev a).task_queue ≡ true) ⊎ (holds p ≡ some i)) place
            (subst
              (λ (x : Accel).
                (has i x.task_queue ≡ true) ⊎ (holds (write s.sys.pc b p' a) ≡ some i))
              lane here),
        rw (place, write_ne s.due b a (next_due m.now (s.sys.pc b) (s.due b)) ne)
            (other_left s a b i m ne),
      )

  -- A step of anyone: what is wanted after it was wanted before, and a step of its own worker brings
  -- it nearer to its end.
  pub step_left :
      {s t : Timed} (a i : ℕ)
      → (st : TimedStep user clock abi s t) → IsReady user clock abi s
      → a < num_accelerators
      → i < s.sys.dev.pool.next_task_id
      → IsWantedIn t a i
      → IsWantedIn s a i × (left clock t a i + own_step user clock abi a st ≤ left clock s a i)
  step_left {s} {t} a i (calls cmd m uarg now le lt e) v three issued here =
      let sound : IsSound s.sys.dev s.sys.pc s.sys.started = Reach-IsSound user clock abi v.reach in
      let (before, same) =
        calls-left clock s.sys.pc s.sys.started a i (s.due a)
          (ioctl-Effect user clock abi s.sys.dev cmd m uarg now sound.order) sound three issued
          (subst (λ (x : Timed). IsWantedIn x a i) e here) in
      (before, omega (arith, same, ap (λ (x : Timed). left clock x a i) e))
  step_left {s} {t} a i (works b m lt le now ea e) v three issued here = elim (ℕ_discrete b a) [
    | yes same ↦
        let (before, fewer) =
          worked_own s a i m three le now
            (subst (λ k. earliest (s.sys.pc k) (s.due k) ≤ m.now) same ea) v
            (subst (λ k. IsWantedIn (worked user clock abi s k m) a i) same here_worked) in
        (
          before,
          ground (
            arith,
            fewer,
            same,
            left_worked,
            ap (λ k. left clock (worked user clock abi s k m) a i) same,
          ),
        )
    | no ne ↦
        let (before, kept) = worked_other s a b i m ne here_worked in
        (before, ground (arith, kept, ne, left_worked))
  ]
    where
      here_worked : IsWantedIn (worked user clock abi s b m) a i
      here_worked = subst (λ (x : Timed). IsWantedIn x a i) e here

      left_worked : left clock t a i ≡ left clock (worked user clock abi s b m) a i
      left_worked = ap (λ (x : Timed). left clock x a i) e
