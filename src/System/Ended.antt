-- ===== src/System/Ended.antt =====
-- What has become of the tasks that a worker has taken and dropped again.
use cortex_forge_driver.Base.{
  Option-cases, Bool-cases, ◌||◌, ltb, if_cases, ℕ, List, [], ◌∷◌, ◌++◌, Bool, true, false, Option,
  none, some, ◌≡◌, ◌≢◌, ◌<◌, inl, inr, refl, arith, ap, sym, ◌∙◌, subst, length, get_or-modify_self,
  get_or-modify_ne, get_or-modify_map, ℕ_discrete,
}
use cortex_forge_driver.Task.{
  elapsed, task_at, Pool, Task, TaskState, complete, cancelled, zero_task,
}
use cortex_forge_driver.Device.{Dev, task_of, accel_at}
use cortex_forge_driver.Kernel.{Clock}
use cortex_forge_driver.Worker.{
  exited, waiting, woken, testing, napping, is_running, spinning, timing, Pc, Moment, worker_step,
  take_head, locking, starting, stamping, completing, clearing, unloading, signalling, unlinking,
}
use cortex_forge_driver.System.Order.{Latest, holds}
use cortex_forge_driver.System.Placement.{has}
use cortex_forge_driver.Worker.Frame.{pool-take_head}
use cortex_forge_driver.System.{first_of_queue, taken}
use cortex_forge_driver.System.Sound.{IsSound}
use cortex_forge_driver.System.Targets.{IsPlaced}

abbrev pub has_ended : TaskState → Bool
has_ended complete = true
has_ended cancelled = true
has_ended _ = false

-- A task that is complete or cancelled, and whose completion is signalled.
abbrev pub IsOver : Task → Type 0
IsOver t = (has_ended t.state ≡ true) × (t.done ≡ true)

-- What a worker's place says of the task that it holds.
abbrev pub Reached : Pc → Task → Type 0
Reached (clearing i) t = has_ended t.state ≡ true
Reached (unloading i) t = has_ended t.state ≡ true
Reached (signalling i) t = has_ended t.state ≡ true
Reached (unlinking i) t = IsOver t
Reached _ t = Unit {0}

abbrev pub task_in : Dev → Option ℕ → Task
task_in d none = zero_task
task_in d (some i) = task_of d i

-- The task that a worker holds, if any.
abbrev pub held_task : Dev → Pc → Task
held_task d p = task_in d (holds p)

-- A worker's step changes no task but the one it holds.
pub task_of-worker_step :
    (clock : Clock) (e : Moment) (d : Dev) (a j : ℕ) (p : Pc)
    → holds p ≢ some j
    → task_of (worker_step clock e d a p).0 j ≡ task_of d j
unfolding worker_step
task_of-worker_step clock e d a j locking h =
    ap (λ (p : Pool). task_at p j) (pool-take_head d a (accel_at d a).task_queue)
task_of-worker_step clock e d a j (starting i) h =
    get_or-modify_ne d.pool.tasks i j _ zero_task (λ q. h (ap some q))
task_of-worker_step clock e d a j (stamping i) h =
    get_or-modify_ne d.pool.tasks i j _ zero_task (λ q. h (ap some q))
task_of-worker_step clock e d a j (completing i) h =
    get_or-modify_ne d.pool.tasks i j _ zero_task (λ q. h (ap some q))
task_of-worker_step clock e d a j (clearing i) h =
    get_or-modify_ne d.pool.tasks i j _ zero_task (λ q. h (ap some q))
task_of-worker_step clock e d a j (signalling i) h =
    get_or-modify_ne d.pool.tasks i j _ zero_task (λ q. h (ap some q))
task_of-worker_step clock e d a j _ h = refl

Reached-take_head :
    (d : Dev) (a : ℕ) (queue : List ℕ)
    → let (d', p') = take_head d a queue in Reached p' (held_task d' p')
unfolding take_head
Reached-take_head d a [] = tt
Reached-take_head d a (i ∷ rest) = tt

-- A worker's step keeps what its place says.
pub Reached-worker_step :
    (clock : Clock) (e : Moment) (d : Dev) (a : ℕ) (p : Pc)
    → ((i : ℕ) → holds p ≡ some i → i < length d.pool.tasks)
    → Reached p (held_task d p)
    → let (d', p') = worker_step clock e d a p in Reached p' (held_task d' p')
unfolding worker_step take_head
Reached-worker_step clock e d a (completing i) lt r =
    ap (λ (t : Task). has_ended t.state) (get_or-modify_self d.pool.tasks i _ zero_task (lt i refl))
Reached-worker_step clock e d a (clearing i) lt r =
    get_or-modify_map (λ (t : Task). has_ended t.state) d.pool.tasks i i _ zero_task (λ t. refl) ∙ r
Reached-worker_step clock e d a (unloading i) lt r = r
Reached-worker_step clock e d a (signalling i) lt r = (
  get_or-modify_map (λ (t : Task). has_ended t.state) d.pool.tasks i i _ zero_task (λ t. refl) ∙ r,
  ap (λ (t : Task). t.done) (get_or-modify_self d.pool.tasks i _ zero_task (lt i refl)),
)
Reached-worker_step clock e d a testing lt r =
    if_cases (λ p. Reached p (held_task d p)) (accel_at d a).running tt tt
Reached-worker_step clock e d a woken lt r =
    if_cases (λ p. Reached p (held_task d p)) (accel_at d a).running tt tt
Reached-worker_step clock e d a locking lt r = Reached-take_head d a (accel_at d a).task_queue
Reached-worker_step clock e d a (timing i) lt r =
    if_cases (λ p. Reached p (held_task d p)) (ltb 0 (task_of d i).timeout_ms) tt tt
Reached-worker_step clock e d a (spinning i start timeout) lt r =
    if_cases (λ p. Reached p (held_task d p)) (ltb (elapsed e.now start) timeout)
      (if_cases (λ p. Reached p (held_task d p)) (is_running (task_of d i).state) tt tt) tt
Reached-worker_step clock e d a (napping i start timeout) lt r =
    if_cases (λ p. Reached p (held_task d p)) e.should_stop tt tt
Reached-worker_step clock e d a _ lt r = tt

-- Every slot that a worker has taken and dropped again holds a task that is over, and the task that a
-- worker holds is as far as the worker's place says.
pub record IsEnded (d : Dev) (pc : ℕ → Pc) (log : ℕ → List ℕ) : Type 0 where
  pub over : (b j : ℕ) → has j (log b) ≡ true → holds (pc b) ≢ some j → IsOver (task_of d j)
  pub reached : (b : ℕ) → Reached (pc b) (held_task d (pc b))

-- What a worker that does not hold a task after a step, and has it in its history, held before.
dropped_by :
    (clock : Clock) (e : Moment) (d : Dev) (a j : ℕ) (p : Pc)
    → holds p ≡ some j
    → holds (worker_step clock e d a p).1 ≢ some j
    → Reached p (held_task d p)
    → IsOver (task_of (worker_step clock e d a p).0 j)
unfolding worker_step
dropped_by clock e d a j (unlinking i) h out r =
    let same : i ≡ j = cc in subst (λ k. IsOver (task_of d k)) same r
dropped_by clock e d a j testing h out r = cc
dropped_by clock e d a j waiting h out r = cc
dropped_by clock e d a j woken h out r = cc
dropped_by clock e d a j locking h out r = cc
dropped_by clock e d a j exited h out r = cc
dropped_by clock e d a j (timing i) h out r = absurd (
    if_cases (λ p. holds p ≢ some j → ⊥) (ltb 0 (task_of d i).timeout_ms) (λ k. k h) (λ k. k h) out)
dropped_by clock e d a j (spinning i start timeout) h out r = absurd (
    if_cases (λ p. holds p ≢ some j → ⊥) (ltb (elapsed e.now start) timeout)
      (if_cases (λ p. holds p ≢ some j → ⊥) (is_running (task_of d i).state) (λ k. k h) (λ k. k h))
      (λ k. k h) out)
dropped_by clock e d a j (napping i start timeout) h out r =
    absurd (if_cases (λ p. holds p ≢ some j → ⊥) e.should_stop (λ k. k h) (λ k. k h) out)
dropped_by clock e d a j p h out r = absurd (out h)

taken-take_head :
    (d : Dev) (a j : ℕ) (queue : List ℕ)
    → has j (first_of_queue queue) ≡ true
    → holds (take_head d a queue).1 ≡ some j
unfolding take_head
taken-take_head d a j [] h = cc
taken-take_head d a j (i ∷ rest) h = let same : i ≡ j = ground arith in ap some same

-- What a worker takes in a step it holds after the step.
taken_held :
    (clock : Clock) (e : Moment) (d : Dev) (a j : ℕ) (p : Pc)
    → has j (taken d a p) ≡ true
    → holds (worker_step clock e d a p).1 ≡ some j
unfolding worker_step take_head
taken_held clock e d a j locking h = taken-take_head d a j (accel_at d a).task_queue h
taken_held clock e d a j _ h = cc

has-append : (j : ℕ) (xs ys : List ℕ) → has j (xs ++ ys) ≡ (has j xs || has j ys)
has-append j [] ys = refl
has-append j (x ∷ xs) ys = ground (arith, has-append j xs ys)

-- The task that a worker holds is the latest of its history.
pub Latest-has :
    (o : Option ℕ) (log : List ℕ) (j : ℕ) → Latest o log → o ≡ some j → has j log ≡ true
Latest-has none log j l e = cc
Latest-has (some k) [] j l e = absurd (omega (arith, l))
Latest-has (some k) (i ∷ log) j l e = let same : k ≡ j = cc in ground (arith, l, same)

pub task_in-kept :
    (d d' : Dev) (o : Option ℕ)
    → ((k : ℕ) → o ≡ some k → task_of d' k ≡ task_of d k)
    → task_in d' o ≡ task_in d o
task_in-kept d d' none h = refl
task_in-kept d d' (some k) h = h k refl

module _ (clock : Clock) (e : Moment) (d : Dev) (pc : ℕ → Pc) (log : ℕ → List ℕ) (a : ℕ)
    (s : IsSound d pc log) (v : IsPlaced d log) (n : IsEnded d pc log) where
  after_step : Dev × Pc
  after_step = worker_step clock e d a (pc a)

  pub held_in_log : (b j : ℕ) → holds (pc b) ≡ some j → has j (log b) ≡ true
  held_in_log b j = Latest-has (holds (pc b)) (log b) j (s.lanes b).latest

  -- A task in the history of another accelerator is not held by this one's worker.
  pub not_held : (b j : ℕ) → a ≢ b → has j (log b) ≡ true → holds (pc a) ≢ some j
  not_held b j ne there held =
      ne
        (sym (v.own a j (ground (arith, held_in_log a j held))) ∙ v.own b j (ground (arith, there)))

  pub IsOver-self :
      (j : ℕ)
      → has j (taken d a (pc a) ++ log a) ≡ true
      → holds (worker_step clock e d a (pc a)).1 ≢ some j
      → IsOver (task_of (worker_step clock e d a (pc a)).0 j)
  IsOver-self j there out = elim (Option-cases (holds (pc a))) [
    | inr (k, held) ↦ elim (ℕ_discrete k j) [
      | yes same ↦ dropped_by clock e d a j (pc a) (held ∙ ap some same) out (n.reached a)
      | no other ↦ kept (λ q. let same : k ≡ j = cc in other same)
    ]
    | inl none_held ↦ kept (λ q. cc)
  ]
    where
      kept : holds (pc a) ≢ some j → IsOver (task_of (worker_step clock e d a (pc a)).0 j)
      kept ne = elim (Bool-cases (has j (taken d a (pc a)))) [
        | inl now ↦ absurd (out (taken_held clock e d a j (pc a) now))
        | inr not_now ↦ subst IsOver (sym (task_of-worker_step clock e d a j (pc a) ne)) (
            n.over a j (ground (arith, there, not_now, has-append j (taken d a (pc a)) (log a))) ne)
      ]
