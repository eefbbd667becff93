-- ===== src/Worker/Finish.antt =====
-- A worker on its own: its inner loop ends, and the task it works on ends complete.
use cortex_forge_driver.Task.{task_cancel}
use cortex_forge_driver.Worker.{is_running, Pc, testing, spinning, stamping, Moment, worker_step}
use cortex_forge_driver.Kernel.{Clock}
use cortex_forge_driver.Task.{zero_task, elapsed, complete, Task}
use cortex_forge_driver.Base.{
  none, some, ◌∙◌, ap, inr, refl, inl, ltb, get_or-modify_self, Bool-cases, suc, modify-modify,
  arith, length, ◌≡◌, ◌≤◌, ◌+◌, [], ◌<◌, ◌∷◌, true, ◌++◌, List, ℕ,
}
use cortex_forge_driver.Device.{task_of, Dev}
use cortex_forge_driver.Errno.{enoent, fail, ok}
use cortex_forge_driver.Task.Slots.{IsInOrder}
use cortex_forge_driver.Chardev.Frame.{cancel_in}
use cortex_forge_driver.Task.Lookup.{length-task_cancel, task_cancel_ret}
use cortex_forge_driver.Task.Issue.{get_or-task_cancel, find_task_issued}

module _ (clock : Clock) (a : ℕ) where
  -- The worker's steps at the given moments, with no other step between.
  unfoldable pub run : List Moment → Dev × Pc → Dev × Pc
  run [] s = s
  run (m ∷ ms) (d, p) = run ms (worker_step clock m d a p)

  -- The rounds of the inner loop: the moment of its test, and that behind its msleep(1).
  abbrev pub moments : List (Moment × Moment) → List Moment
  moments [] = []
  moments ((m, n) ∷ rounds) = m ∷ n ∷ moments rounds

  -- Each test comes at least one jiffy after the last: the first `k` jiffies after `start`.
  abbrev pub Ticking : ℕ → ℕ → List (Moment × Moment) → Type 0
  Ticking start k [] = Unit {0}
  Ticking start k ((m, n) ∷ rounds) = (k ≤ elapsed m.now start) × Ticking start (suc k) rounds

  abbrev Ends : Dev → Pc → Pc → List Moment → Type 0
  Ends d p q ms =
      (before : List Moment) × (rest : List Moment) × (before ++ rest ≡ ms)
      × (run before (d, p) ≡ (d, q))

  -- A worker in its inner loop, at its own steps only: if each test comes at least a jiffy after the
  -- one before, the first of them `k` jiffies after the start, and there are more than `timeout - k` of
  -- them, the loop has ended at one of them, in whatever state the task is, and the device is unchanged.
  pub spin-Ends :
      (d : Dev) (i start timeout k : ℕ) (rounds : List (Moment × Moment))
      → Ticking start k rounds
      → timeout < k + length rounds
      → k ≤ timeout
      → Ends d (spinning i start timeout) (stamping i) (moments rounds)
  unfolding run worker_step
  spin-Ends d i start timeout k [] t h le = absurd (omega arith)
  spin-Ends d i start timeout k ((m, n) ∷ rounds) t h le =
      elim (Bool-cases (ltb (elapsed m.now start) timeout)) [
        | inl early ↦ elim (Bool-cases (is_running (task_of d i).state)) [
          | inl runs ↦ elim (Bool-cases n.should_stop) [
            | inl stop ↦ (m ∷ n ∷ [], moments rounds, refl, ground arith)
            | inr go ↦
                let (before, rest, whole, ends) =
                  spin-Ends d i start timeout (suc k) rounds t.1 (omega arith) (ground arith) in
                (m ∷ n ∷ before, rest, ap (λ ms. m ∷ n ∷ ms) whole, ground (arith, ends))
          ]
          | inr stops ↦ (m ∷ [], n ∷ moments rounds, refl, ground arith)
        ]
        | inr late ↦ (m ∷ [], n ∷ moments rounds, refl, ground arith)
      ]

-- The task as the worker leaves it.
abbrev pub finished : Moment → Task → Task
finished m t = record t { complete_jiffies = m.now; state = complete; error_code = ok; done = true }

abbrev pub six : (m₁ m₂ m₃ m₄ m₅ m₆ : Moment) → List Moment
six m₁ m₂ m₃ m₄ m₅ m₆ = m₁ ∷ m₂ ∷ m₃ ∷ m₄ ∷ m₅ ∷ m₆ ∷ []

module _ (clock : Clock) (a : ℕ) (d : Dev) (i : ℕ) (m₁ m₂ m₃ m₄ m₅ m₆ : Moment) where
  -- From the end of its inner loop a worker is back at the head of its loop after six steps of its own,
  -- and the task is complete with error 0, whatever its state and its error were.
  pub run-stamping :
      i < length d.pool.tasks
      → let (d', p) = run clock a (six m₁ m₂ m₃ m₄ m₅ m₆) (d, stamping i) in
        (p ≡ testing) × (task_of d' i ≡ finished m₁ (task_of d i))
  unfolding run worker_step
  run-stamping h = (refl, simp modify-modify (get_or-modify_self d.pool.tasks i _ zero_task h))

-- The end of a task does not depend on whether it was cancelled before.
pub finished-cancel_in :
    (d : Dev) (id i : ℕ) (m : Moment)
    → finished m (task_of (cancel_in d id) i) ≡ finished m (task_of d i)
finished-cancel_in d id i m = elim (get_or-task_cancel id d.pool.tasks i) [
  | inl e ↦ ap (finished m) e
  | inr (e, _) ↦ ap (finished m) e
]

-- Cancelling an accepted task returns 0.
pub task_cancel-issued :
    (d : Dev) (i : ℕ)
    → IsInOrder d.pool
    → i < d.pool.next_task_id
    → (task_cancel (suc i) d.pool.tasks).0 ≡ ok
task_cancel-issued d i v h =
    task_cancel_ret (suc i) d.pool.tasks
    ∙ ap (λ o. elim o [ none ↦ fail enoent | some _ ↦ ok ]) (find_task_issued d.pool v i h)

-- Over a pool in order, cancelling an accepted task whose worker is past its inner loop returns 0
-- and is lost: after the worker's next six steps the task is exactly as it is without the
-- cancellation, complete with error 0.
pub cancel_lost :
    (clock : Clock) (a : ℕ) (d : Dev) (i : ℕ) (m₁ m₂ m₃ m₄ m₅ m₆ : Moment)
    → IsInOrder d.pool
    → i < d.pool.next_task_id
    → ((task_cancel (suc i) d.pool.tasks).0 ≡ ok)
      × (task_of (run clock a (six m₁ m₂ m₃ m₄ m₅ m₆) (cancel_in d (suc i), stamping i)).0 i
          ≡ finished m₁ (task_of d i))
cancel_lost clock a d i m₁ m₂ m₃ m₄ m₅ m₆ v h = (
  task_cancel-issued d i v h,
  (run-stamping clock a (cancel_in d (suc i)) i m₁ m₂ m₃ m₄ m₅ m₆
        (omega (arith, length-task_cancel (suc i) d.pool.tasks, v.size, v.bound))).1
      ∙ finished-cancel_in d (suc i) i m₁,
)
