-- ===== src/System/Ahead.antt =====
-- How many of its own steps a worker still needs, at most, to be done with a task of its lane.
use cortex_forge_driver.Base.{
  subst, ap₂, ℕ, suc, ◌+◌, ◌*◌, ◌^◌, ◌≤◌, ◌<◌, ◌≡◌, ◌≢◌, ◌⊎◌, inl, inr, List, [], ◌∷◌, ◌++◌, true,
  some, refl, arith, ap, sym, length, get_or-modify_self, get_or-modify_map, if◌then◌else◌, ◌==◌,
}
use cortex_forge_driver.Accel.{Accel, zero_accel}
use cortex_forge_driver.Device.{Dev, accel_at}
use cortex_forge_driver.Kernel.{Clock}
use cortex_forge_driver.Worker.{
  Pc, locking, loading, unloading, unlinking, exited, Moment, worker_step, take_head,
}
use cortex_forge_driver.System.Order.{holds, Between}
use cortex_forge_driver.System.Placement.{has, has-snoc}
use cortex_forge_driver.System.Waiting.{has-Between-le}
use cortex_forge_driver.System.Rank.{
  limit, rank, next_due, earliest, IsTimely, rank-worker_step, limit-worker_step,
}

-- For the tasks of a queue up to `i`.
abbrev pub need : Clock → Dev → ℕ → List ℕ → ℕ
need clock d i [] = 0
need clock d i (j ∷ js) =
    let rest = need clock d i js in 14 + 2 * limit clock d j + (if j == i then 0 else rest)

abbrev pub queue_need : Clock → Dev → ℕ → List ℕ → ℕ
queue_need clock d i queue = if has i queue then need clock d i queue else 0

abbrev pub steps_left : Clock → Dev → ℕ → Pc → List ℕ → ℕ → ℕ
steps_left clock d due p queue i = rank clock d due p + queue_need clock d i queue

need-same :
    (clock : Clock) (d d' : Dev) (i : ℕ) (queue : List ℕ)
    → ((j : ℕ) → has j queue ≡ true → limit clock d' j ≡ limit clock d j)
    → need clock d' i queue ≡ need clock d i queue
need-same clock d d' i [] h = refl
need-same clock d d' i (j ∷ js) h =
    ap₂ (λ x rest. 14 + 2 * x + (if j == i then 0 else rest)) (h j (ground arith))
      (need-same clock d d' i js (λ k m. h k (ground (arith, m))))

pub queue_need-same :
    (clock : Clock) (d d' : Dev) (i : ℕ) (queue : List ℕ)
    → ((j : ℕ) → has j queue ≡ true → limit clock d' j ≡ limit clock d j)
    → queue_need clock d' i queue ≡ queue_need clock d i queue
queue_need-same clock d d' i queue h =
    ap (λ n. if has i queue then n else 0) (need-same clock d d' i queue h)

need-snoc :
    (clock : Clock) (d : Dev) (i n : ℕ) (queue : List ℕ)
    → has i queue ≡ true
    → need clock d i (queue ++ n ∷ []) ≡ need clock d i queue
need-snoc clock d i n [] h = cc
need-snoc clock d i n (j ∷ js) h = ground (arith, need-snoc clock d i n js)

-- What joins a queue behind a task does not make it wait longer.
pub queue_need-snoc :
    (clock : Clock) (d : Dev) (i n : ℕ) (queue : List ℕ)
    → n ≢ i
    → queue_need clock d i (queue ++ n ∷ []) ≡ queue_need clock d i queue
queue_need-snoc clock d i n queue ne =
    ground (arith, has-snoc i queue n, need-snoc clock d i n queue)

Pc-locking : (p : Pc) → (p ≡ locking) ⊎ (p ≢ locking)
Pc-locking locking = inl refl
Pc-locking _ = inr (λ q. cc)

task_queue-worker_step :
    (clock : Clock) (e : Moment) (d : Dev) (a b : ℕ) (p : Pc)
    → p ≢ locking
    → (accel_at (worker_step clock e d a p).0 b).task_queue ≡ (accel_at d b).task_queue
unfolding worker_step
task_queue-worker_step clock e d a b locking ne = absurd (ne refl)
task_queue-worker_step clock e d a b (loading i) ne =
    get_or-modify_map (λ (x : Accel). x.task_queue) d.accelerators a b _ zero_accel (λ x. refl)
task_queue-worker_step clock e d a b (unloading i) ne =
    get_or-modify_map (λ (x : Accel). x.task_queue) d.accelerators a b _ zero_accel (λ x. refl)
task_queue-worker_step clock e d a b (unlinking i) ne =
    get_or-modify_map (λ (x : Accel). x.task_queue) d.accelerators a b _ zero_accel (λ x. refl)
task_queue-worker_step clock e d a b _ ne = refl

steps_left-take_head :
    (clock : Clock) (d : Dev) (a i due lo hi : ℕ) (queue : List ℕ)
    → a < length d.accelerators
    → Between lo queue hi
    → has i queue ≡ true
    → let (d', p') = take_head d a queue in
      steps_left clock d' due p' (accel_at d' a).task_queue i < 1 + queue_need clock d i queue
unfolding take_head
steps_left-take_head clock d a i due lo hi [] lt b h = cc
steps_left-take_head clock d a i due lo hi (j ∷ rest) lt b h =
    subst
      (λ q. 14 + 2 * limit clock d j + queue_need clock d i q < 1 + queue_need clock d i (j ∷ rest))
      (sym (
        ap (λ (x : Accel). x.task_queue)
          (get_or-modify_self d.accelerators a
            (λ x. record x { task_queue = rest; active_tasks = x.active_tasks ++ j ∷ [] })
            zero_accel lt)))
      (ground (arith, h, has-Between-le i (suc j) rest hi b.1))

steps_left-locking :
    (clock : Clock) (e : Moment) (d : Dev) (a i due lo hi : ℕ)
    → a < length d.accelerators
    → Between lo (accel_at d a).task_queue hi
    → has i (accel_at d a).task_queue ≡ true
    → let (d', p') = worker_step clock e d a locking in
      steps_left clock d' due p' (accel_at d' a).task_queue i
      < steps_left clock d due locking (accel_at d a).task_queue i
unfolding worker_step
steps_left-locking clock e d a i due lo hi lt b here =
    steps_left-take_head clock d a i due lo hi (accel_at d a).task_queue lt b here

in_queue :
    (p : Pc) (i : ℕ) (queue : List ℕ)
    → p ≡ locking
    → (has i queue ≡ true) ⊎ (holds p ≡ some i)
    → has i queue ≡ true
in_queue p i queue same (inl there) = there
in_queue p i queue same (inr held) = cc (ap holds same)

-- A step of the worker lowers what it needs for a task of its queue, or for the task that it holds.
pub steps_left-worker_step :
    (clock : Clock) (e : Moment) (d : Dev) (a i time due lo hi : ℕ) (p : Pc)
    → a < length d.accelerators
    → (accel_at d a).running ≡ true
    → p ≢ exited
    → IsTimely time due p
    → time ≤ e.now
    → e.now < 2 ^ 64
    → earliest p due ≤ e.now
    → Between lo (accel_at d a).task_queue hi
    → (has i (accel_at d a).task_queue ≡ true) ⊎ (holds p ≡ some i)
    → let (d', p') = worker_step clock e d a p in
      steps_left clock d' (next_due e.now p due) p' (accel_at d' a).task_queue i
      < steps_left clock d due p (accel_at d a).task_queue i
steps_left-worker_step clock e d a i time due lo hi p lt up ne t le now ea b here =
    elim (Pc-locking p) [
      | inl same ↦
          subst
            (λ q.
              let (d', p') = worker_step clock e d a q in
              steps_left clock d' (next_due e.now q due) p' (accel_at d' a).task_queue i
              < steps_left clock d due q (accel_at d a).task_queue i)
            (sym same)
            (steps_left-locking clock e d a i due lo hi lt b
              (in_queue p i (accel_at d a).task_queue same here))
      | inr other ↦ rw (task_queue-worker_step clock e d a a p other) (
          omega (
            arith,
            rank-worker_step clock e d a time due p up ne other t le now ea,
            queue_need-same clock d (worker_step clock e d a p).0 i (accel_at d a).task_queue
                (λ j m. limit-worker_step clock e d a j p),
          ))
    ]
