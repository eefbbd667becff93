-- ===== src/Task/Lookup.antt =====
-- What task_query and task_cancel find: the laws of the search by task id.
use cortex_forge_driver.Base.{
  ℕ, zero, suc, ◌<◌, List, [], ◌∷◌, none, some, true, false, ◌≡◌, refl, arith, length, get_or,
  modify, ◌==◌, if◌then◌else◌,
}
use cortex_forge_driver.Errno.{ok, fail, enoent}
use cortex_forge_driver.Task.{Task, zero_task, matches, find_task, task_cancel, cancel_task}

-- The search stops at the first slot that matches.
pub find_task_first :
    (id : ℕ) (ts : List Task) (i : ℕ)
    → i < length ts
    → matches id (get_or ts i zero_task) ≡ true
    → ((j : ℕ) → j < i → matches id (get_or ts j zero_task) ≡ false)
    → find_task id ts ≡ some (get_or ts i zero_task)
unfolding find_task
find_task_first id [] i h m before = elim h [ ]
find_task_first id (t ∷ ts) zero h m before = ground arith
find_task_first id (t ∷ ts) (suc i) h m before = ground (
  arith,
  before 0,
  find_task_first id ts i (omega arith) m (λ j lt. before (suc j) (omega arith)),
)

pub find_task-none :
    (id : ℕ) (ts : List Task)
    → ((j : ℕ) → j < length ts → matches id (get_or ts j zero_task) ≡ false)
    → find_task id ts ≡ none
unfolding find_task
find_task-none id [] no_match = refl
find_task-none id (t ∷ ts) no_match =
    ground (arith, no_match 0, find_task-none id ts (λ j lt. no_match (suc j) (omega arith)))

-- A slot that is found has the id and is in use.
pub find_task-matches :
    (id : ℕ) (ts : List Task) {t : Task} → find_task id ts ≡ some t → matches id t ≡ true
unfolding find_task
find_task-matches id [] e = cc
find_task-matches id (t ∷ ts) {t = u} e = ground (arith, find_task-matches id ts {t = u})

pub task_cancel_ret :
    (id : ℕ) (ts : List Task)
    → (task_cancel id ts).0 ≡ elim (find_task id ts) [ none ↦ fail enoent | some _ ↦ ok ]
unfolding find_task task_cancel
task_cancel_ret id [] = refl
task_cancel_ret id (t ∷ ts) = ground (arith, task_cancel_ret id ts)

-- After a cancel a query of that id finds the slot cancelled, and a query of any other id finds what
-- it found before.
pub find_task-task_cancel :
    (id other : ℕ) (ts : List Task)
    → find_task other (task_cancel id ts).1 ≡ (
        if other == id
        then elim (find_task id ts) [ none ↦ none | some t ↦ some (cancel_task t) ]
        else find_task other ts)
unfolding find_task task_cancel
find_task-task_cancel id other [] = ground arith
find_task-task_cancel id other (t ∷ ts) = ground (arith, find_task-task_cancel id other ts)

pub length-task_cancel : (id : ℕ) (ts : List Task) → length (task_cancel id ts).1 ≡ length ts
unfolding task_cancel
length-task_cancel id [] = refl
length-task_cancel id (t ∷ ts) = ground (arith, length-task_cancel id ts)

-- The first slot that matches is the one that is cancelled.
pub task_cancel_first :
    (id : ℕ) (ts : List Task) (k : ℕ)
    → k < length ts
    → ((j : ℕ) → j < k → matches id (get_or ts j zero_task) ≡ false)
    → matches id (get_or ts k zero_task) ≡ true
    → task_cancel id ts ≡ (ok, modify ts k cancel_task)
unfolding task_cancel
task_cancel_first id [] k lt before hit = absurd (omega arith)
task_cancel_first id (t ∷ ts) zero lt before hit = ground (arith, hit)
task_cancel_first id (t ∷ ts) (suc k) lt before hit = ground (
  arith,
  before 0,
  task_cancel_first id ts k (omega arith) (λ j jlt. before (suc j) (omega arith)) hit,
)

-- If none matches, none is.
pub task_cancel_none :
    (id : ℕ) (ts : List Task)
    → ((j : ℕ) → j < length ts → matches id (get_or ts j zero_task) ≡ false)
    → task_cancel id ts ≡ (fail enoent, ts)
unfolding task_cancel
task_cancel_none id [] before = refl
task_cancel_none id (t ∷ ts) before =
    ground (arith, before 0, task_cancel_none id ts (λ j jlt. before (suc j) (omega arith)))
