-- ===== src/System/Rank.antt =====
-- How many of its own steps a worker still needs, at most. `due` is the earliest time of its next test
-- of the clock.
use cortex_forge_driver.Base.{
  ℕ, ◌+◌, ◌-◌, ◌*◌, ◌^◌, ◌≤◌, ◌<◌, ◌≡◌, ◌≢◌, true, refl, arith, ap, ltb, get_or-modify_map,
  if_cases, if◌then◌else◌, Bool-cases, inl, inr,
}
use cortex_forge_driver.Task.{Task, Pool, zero_task, elapsed, task_at}
use cortex_forge_driver.Device.{Dev, accel_at, task_of}
use cortex_forge_driver.Kernel.{Clock}
use cortex_forge_driver.Worker.{
  Pc, testing, waiting, woken, locking, starting, loading, timing, spinning, napping, sleeping,
  stamping, completing, clearing, unloading, signalling, unlinking, exited, is_running, Moment,
  worker_step,
}
use cortex_forge_driver.Worker.Frame.{pool-take_head}

-- The jiffies that a task may run.
abbrev pub limit : Clock → Dev → ℕ → ℕ
limit clock d i = clock.msecs_to_jiffies (task_of d i).timeout_ms

abbrev pub rank : Clock → Dev → ℕ → Pc → ℕ
rank clock d due testing = 4
rank clock d due waiting = 3
rank clock d due woken = 2
rank clock d due locking = 1
rank clock d due (starting i) = 14 + 2 * limit clock d i
rank clock d due (loading i) = 13 + 2 * limit clock d i
rank clock d due (timing i) = 12 + 2 * limit clock d i
rank clock d due (napping i begin timeout) = 12 + 2 * (timeout - (due - begin))
rank clock d due (spinning i begin timeout) = 11 + 2 * (timeout - (due - begin))
rank clock d due (sleeping i) = 11
rank clock d due (stamping i) = 10
rank clock d due (completing i) = 9
rank clock d due (clearing i) = 8
rank clock d due (unloading i) = 7
rank clock d due (signalling i) = 6
rank clock d due (unlinking i) = 5
rank clock d due exited = 0

-- The earliest time of the next test after a step at `now`. msleep(1) takes a jiffy at least.
abbrev pub next_due : ℕ → Pc → ℕ → ℕ
next_due now (timing i) due = now
next_due now (spinning i begin timeout) due = now + 1
next_due now (napping i begin timeout) due = now
next_due now _ due = due

-- A step is not before the earliest time of its test.
abbrev pub earliest : Pc → ℕ → ℕ
earliest (napping i begin timeout) due = due
earliest _ due = 0

-- What holds of the times of a worker's inner loop.
abbrev pub IsTimely : ℕ → ℕ → Pc → Type 0
IsTimely time due (spinning i begin timeout) = (begin ≤ due) × (due ≤ time)
IsTimely time due (napping i begin timeout) = begin ≤ due
IsTimely time due _ = Unit {0}

-- A worker's step changes no task's timeout.
pub timeout_ms-worker_step :
    (clock : Clock) (e : Moment) (d : Dev) (a i : ℕ) (p : Pc)
    → (task_of (worker_step clock e d a p).0 i).timeout_ms ≡ (task_of d i).timeout_ms
unfolding worker_step
timeout_ms-worker_step clock e d a i locking =
    ap (λ (p : Pool). (task_at p i).timeout_ms) (pool-take_head d a (accel_at d a).task_queue)
timeout_ms-worker_step clock e d a i (starting j) =
    get_or-modify_map (λ (t : Task). t.timeout_ms) d.pool.tasks j i _ zero_task (λ t. refl)
timeout_ms-worker_step clock e d a i (stamping j) =
    get_or-modify_map (λ (t : Task). t.timeout_ms) d.pool.tasks j i _ zero_task (λ t. refl)
timeout_ms-worker_step clock e d a i (completing j) =
    get_or-modify_map (λ (t : Task). t.timeout_ms) d.pool.tasks j i _ zero_task (λ t. refl)
timeout_ms-worker_step clock e d a i (clearing j) =
    get_or-modify_map (λ (t : Task). t.timeout_ms) d.pool.tasks j i _ zero_task (λ t. refl)
timeout_ms-worker_step clock e d a i (signalling j) =
    get_or-modify_map (λ (t : Task). t.timeout_ms) d.pool.tasks j i _ zero_task (λ t. refl)
timeout_ms-worker_step clock e d a i _ = refl

pub limit-worker_step :
    (clock : Clock) (e : Moment) (d : Dev) (a i : ℕ) (p : Pc)
    → limit clock (worker_step clock e d a p).0 i ≡ limit clock d i
limit-worker_step clock e d a i p =
    ap clock.msecs_to_jiffies (timeout_ms-worker_step clock e d a i p)

pub elapsed_lem : (now begin : ℕ) → begin ≤ now → now < 2 ^ 64 → elapsed now begin ≡ now - begin
elapsed_lem now begin le lt = omega arith

-- Outside the section that takes a task, a step of a worker lowers its rank.
pub rank-worker_step :
    (clock : Clock) (e : Moment) (d : Dev) (a time due : ℕ) (p : Pc)
    → (accel_at d a).running ≡ true
    → p ≢ exited
    → p ≢ locking
    → IsTimely time due p
    → time ≤ e.now
    → e.now < 2 ^ 64
    → earliest p due ≤ e.now
    → let (d', p') = worker_step clock e d a p in
      rank clock d' (next_due e.now p due) p' < rank clock d due p
unfolding worker_step
rank-worker_step clock e d a time due testing up ne nl t le lt ea = ap_rank
  where
    ap_rank : rank clock d due (if (accel_at d a).running then waiting else exited) < 4
    ap_rank = rw up (omega arith)
rank-worker_step clock e d a time due waiting up ne nl t le lt ea = omega arith
rank-worker_step clock e d a time due woken up ne nl t le lt ea = rw up (omega arith)
rank-worker_step clock e d a time due locking up ne nl t le lt ea = absurd (nl refl)
rank-worker_step clock e d a time due (starting i) up ne nl t le lt ea =
    omega (arith, limit-worker_step clock e d a i (starting i))
rank-worker_step clock e d a time due (loading i) up ne nl t le lt ea = omega arith
rank-worker_step clock e d a time due (timing i) up ne nl t le lt ea =
    if_cases (λ p. rank clock d e.now p < 12 + 2 * limit clock d i) (ltb 0 (task_of d i).timeout_ms)
      (omega arith) (omega arith)
rank-worker_step clock e d a time due (spinning i begin timeout) up ne nl t le lt ea =
    elim (Bool-cases (ltb (elapsed e.now begin) timeout)) [
      | inl early ↦ rw early (
          if_cases (λ p. rank clock d (e.now + 1) p < 11 + 2 * (timeout - (due - begin)))
            (is_running (task_of d i).state)
            (ground (arith, early, t, elapsed_lem e.now begin (omega (arith, t.0, t.1)) lt))
            (omega arith))
      | inr late ↦ rw late (omega arith)
    ]
rank-worker_step clock e d a time due (napping i begin timeout) up ne nl t le lt ea =
    if_cases (λ p. rank clock d e.now p < 12 + 2 * (timeout - (due - begin))) e.should_stop
      (omega arith) (omega arith)
rank-worker_step clock e d a time due (sleeping i) up ne nl t le lt ea = omega arith
rank-worker_step clock e d a time due (stamping i) up ne nl t le lt ea = omega arith
rank-worker_step clock e d a time due (completing i) up ne nl t le lt ea = omega arith
rank-worker_step clock e d a time due (clearing i) up ne nl t le lt ea = omega arith
rank-worker_step clock e d a time due (unloading i) up ne nl t le lt ea = omega arith
rank-worker_step clock e d a time due (signalling i) up ne nl t le lt ea = omega arith
rank-worker_step clock e d a time due (unlinking i) up ne nl t le lt ea = omega arith
rank-worker_step clock e d a time due exited up ne nl t le lt ea = absurd (ne refl)
