-- ===== src/System/Progress.antt =====
-- A task that waits or is being executed gets nearer to its end with every step of its worker, and no
-- other step takes it further away.
use cortex_forge_driver.Base.{
  ap₂, ◌*◌, ℕ, ◌+◌, ◌<◌, ◌≡◌, ◌≢◌, ◌⊎◌, inl, inr, List, [], ◌∷◌, ◌++◌, some, true, refl, arith, ap,
  sym, ◌∙◌, subst, length, get_or-modify_ne, get_or-modify_self, ℕ_discrete, if_cases, ltb,
}
use cortex_forge_driver.Accel.{num_accelerators, Accel, zero_accel}
use cortex_forge_driver.Device.{set_accel, Dev, accel_at, task_of, enqueue}
use cortex_forge_driver.Kernel.{Clock}
use cortex_forge_driver.Task.{Task, elapsed}
use cortex_forge_driver.Task.Issue.{get_or-task_cancel}
use cortex_forge_driver.Chardev.Frame.{Effect, unchanged, cancels, accepts}
use cortex_forge_driver.Worker.{
  Pc, testing, waiting, woken, locking, starting, loading, timing, spinning, napping, unloading,
  unlinking, exited, is_running, Moment, worker_step, take_head,
}
use cortex_forge_driver.System.Order.{after_latest, holds, held_lt}
use cortex_forge_driver.System.Placement.{has, has-Between, has-snoc}
use cortex_forge_driver.System.Sound.{IsSound}
use cortex_forge_driver.System.Targets.{task_other}
use cortex_forge_driver.System.Rank.{limit, rank}
use cortex_forge_driver.System.Ahead.{steps_left, queue_need, queue_need-same, queue_need-snoc}
use cortex_forge_driver.Chardev.Submit.{accept}

-- In the queue of the accelerator `a`, or held by its worker.
abbrev pub IsWanted : Dev → (ℕ → Pc) → ℕ → ℕ → Type 0
IsWanted d pc a i = (has i (accel_at d a).task_queue ≡ true) ⊎ (holds (pc a) ≡ some i)

pub rank-same :
    (clock : Clock) (d d' : Dev) (due : ℕ) (p : Pc)
    → ((j : ℕ) → holds p ≡ some j → limit clock d' j ≡ limit clock d j)
    → rank clock d' due p ≡ rank clock d due p
rank-same clock d d' due (starting i) h = ap (λ n. 14 + 2 * n) (h i refl)
rank-same clock d d' due (loading i) h = ap (λ n. 13 + 2 * n) (h i refl)
rank-same clock d d' due (timing i) h = ap (λ n. 12 + 2 * n) (h i refl)
rank-same clock d d' due testing h = refl
rank-same clock d d' due waiting h = refl
rank-same clock d d' due woken h = refl
rank-same clock d d' due locking h = refl
rank-same clock d d' due exited h = refl
rank-same clock d d' due _ h = refl

-- A call changes neither the timeout nor the target of an accepted task.
pub fixed-Effect :
    {now : ℕ} {d d' : Dev} (j : ℕ)
    → Effect now d d'
    → j < d.pool.next_task_id
    → ((task_of d' j).timeout_ms ≡ (task_of d j).timeout_ms)
      × ((task_of d' j).accel_type ≡ (task_of d j).accel_type)
fixed-Effect {d} j (unchanged e) lt = rw e (refl, refl)
fixed-Effect {d} j (cancels id e) lt = rw e (
  ground (arith, get_or-task_cancel id d.pool.tasks j),
  ground (arith, get_or-task_cancel id d.pool.tasks j),
)
fixed-Effect {now} {d} j (accepts desc acc h e) lt =
    let other : task_of (accept d desc now) j ≡ task_of d j =
      task_other d desc now j (λ q. absurd (omega (arith, q, lt))) in
    rw e (ap (λ (t : Task). t.timeout_ms) other, ap (λ (t : Task). t.accel_type) other)

-- A call appends the new slot to a queue at most.
queue-Effect :
    {now : ℕ} {d d' : Dev} (a : ℕ)
    → Effect now d d'
    → a < length d.accelerators
    → ((accel_at d' a).task_queue ≡ (accel_at d a).task_queue)
      ⊎ ((accel_at d' a).task_queue ≡ (accel_at d a).task_queue ++ d.pool.next_task_id ∷ [])
queue-Effect a (unchanged e) lt = inl (rw e refl)
queue-Effect a (cancels id e) lt = inl (rw e refl)
queue-Effect {now} {d} a (accepts desc acc h e) lt = elim (ℕ_discrete desc.accel_type a) [
  | yes same ↦ inr (
      ap (λ (x : Dev). (accel_at x a).task_queue) e
      ∙ subst
          (λ k.
            (accel_at (set_accel d k (enqueue d.pool.next_task_id)) a).task_queue
            ≡ (accel_at d a).task_queue ++ d.pool.next_task_id ∷ [])
          (sym same)
          (ap (λ (x : Accel). x.task_queue)
            (get_or-modify_self d.accelerators a (enqueue d.pool.next_task_id) zero_accel lt)))
  | no ne ↦ inl (
      ap (λ (x : Dev). (accel_at x a).task_queue) e
      ∙ ap (λ (x : Accel). x.task_queue)
          (get_or-modify_ne d.accelerators desc.accel_type a (enqueue d.pool.next_task_id)
            zero_accel ne))
]

-- What is wanted after a call was wanted before it, and is no further away.
pub calls-left :
    {now : ℕ} {d d' : Dev} (clock : Clock) (pc : ℕ → Pc) (log : ℕ → List ℕ) (a i due : ℕ)
    → Effect now d d'
    → IsSound d pc log
    → a < num_accelerators
    → i < d.pool.next_task_id
    → IsWanted d' pc a i
    → IsWanted d pc a i
      × (steps_left clock d' due (pc a) (accel_at d' a).task_queue i
          ≡ steps_left clock d due (pc a) (accel_at d a).task_queue i)
calls-left {d} {d'} clock pc log a i due eff s three lt here =
    (before, ap₂ (λ x y. x + y) same_rank same_need)
  where
    queue : List ℕ
    queue = (accel_at d a).task_queue

    fate :
        ((accel_at d' a).task_queue ≡ queue)
        ⊎ ((accel_at d' a).task_queue ≡ queue ++ d.pool.next_task_id ∷ [])
    fate = queue-Effect a eff (omega (arith, three, s.three))

    still : has i (accel_at d' a).task_queue ≡ true → has i queue ≡ true
    still there = elim fate [
      | inl q ↦ ap (has i) (sym q) ∙ there
      | inr q ↦ ground (arith, ap (has i) (sym q) ∙ there, has-snoc i queue d.pool.next_task_id, lt)
    ]

    before : IsWanted d pc a i
    before = elim here [ inl there ↦ inl (still there) | inr held ↦ inr held ]

    same_rank : rank clock d' due (pc a) ≡ rank clock d due (pc a)
    same_rank =
        rank-same clock d d' due (pc a)
          (λ j h. ap clock.msecs_to_jiffies (fixed-Effect j eff (held_lt (s.lanes a) h)).0)

    kept : queue_need clock d' i queue ≡ queue_need clock d i queue
    kept = queue_need-same clock d d' i queue (λ j m.
        ap clock.msecs_to_jiffies
          (fixed-Effect j eff
            (has-Between j (after_latest (log a)) queue d.pool.next_task_id (s.lanes a).queue m)).0)

    same_need : queue_need clock d' i (accel_at d' a).task_queue ≡ queue_need clock d i queue
    same_need = elim fate [
      | inl q ↦ ap (queue_need clock d' i) q ∙ kept
      | inr q ↦
          ap (queue_need clock d' i) q
          ∙ queue_need-snoc clock d' i d.pool.next_task_id queue
              (λ e. absurd (omega (arith, e, lt)))
          ∙ kept
    ]

accel_at-take_head :
    (d : Dev) (a b : ℕ) (queue : List ℕ) → a ≢ b → accel_at (take_head d a queue).0 b ≡ accel_at d b
unfolding take_head
accel_at-take_head d a b [] ne = refl
accel_at-take_head d a b (i ∷ rest) ne = get_or-modify_ne d.accelerators a b _ zero_accel ne

-- A worker's step leaves the other accelerators alone.
pub accel_at-worker_step :
    (clock : Clock) (e : Moment) (d : Dev) (a b : ℕ) (p : Pc)
    → a ≢ b
    → accel_at (worker_step clock e d a p).0 b ≡ accel_at d b
unfolding worker_step
accel_at-worker_step clock e d a b locking ne =
    accel_at-take_head d a b (accel_at d a).task_queue ne
accel_at-worker_step clock e d a b (loading i) ne =
    get_or-modify_ne d.accelerators a b _ zero_accel ne
accel_at-worker_step clock e d a b (unloading i) ne =
    get_or-modify_ne d.accelerators a b _ zero_accel ne
accel_at-worker_step clock e d a b (unlinking i) ne =
    get_or-modify_ne d.accelerators a b _ zero_accel ne
accel_at-worker_step clock e d a b _ ne = refl

held_before-take_head :
    (d : Dev) (a i : ℕ) (queue : List ℕ)
    → holds (take_head d a queue).1 ≡ some i
    → has i queue ≡ true
unfolding take_head
held_before-take_head d a i [] h = cc
held_before-take_head d a i (j ∷ rest) h = let same : j ≡ i = cc in ground (arith, same)

-- What a worker holds after a step it held before, or it was in the queue.
pub held_before :
    (clock : Clock) (e : Moment) (d : Dev) (a i : ℕ) (p : Pc)
    → holds (worker_step clock e d a p).1 ≡ some i
    → (has i (accel_at d a).task_queue ≡ true) ⊎ (holds p ≡ some i)
unfolding worker_step
held_before clock e d a i locking h = inl (held_before-take_head d a i (accel_at d a).task_queue h)
held_before clock e d a i testing h =
    absurd (if_cases (λ p. holds p ≡ some i → ⊥) (accel_at d a).running (λ q. cc) (λ q. cc) h)
held_before clock e d a i woken h =
    absurd (if_cases (λ p. holds p ≡ some i → ⊥) (accel_at d a).running (λ q. cc) (λ q. cc) h)
held_before clock e d a i (timing j) h = inr (
    if_cases (λ p. holds p ≡ some i → some j ≡ some i) (ltb 0 (task_of d j).timeout_ms) (λ q. q)
      (λ q. q) h)
held_before clock e d a i (spinning j begin timeout) h = inr (
    if_cases (λ p. holds p ≡ some i → some j ≡ some i) (ltb (elapsed e.now begin) timeout)
      (if_cases (λ p. holds p ≡ some i → some j ≡ some i) (is_running (task_of d j).state) (λ q. q)
        (λ q. q))
      (λ q. q) h)
held_before clock e d a i (napping j begin timeout) h =
    inr (if_cases (λ p. holds p ≡ some i → some j ≡ some i) e.should_stop (λ q. q) (λ q. q) h)
held_before clock e d a i waiting h = cc
held_before clock e d a i exited h = cc
held_before clock e d a i (unlinking j) h = cc
held_before clock e d a i _ h = inr h
