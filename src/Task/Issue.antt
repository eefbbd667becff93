-- ===== src/Task/Issue.antt =====
-- How task_alloc, an update through a task pointer, task_cancel and the search by id act on a pool
-- whose slots are handed out in order.
use cortex_forge_driver.Base.{
  ℕ, zero, suc, ◌+◌, ◌-◌, ◌<◌, List, [], ◌∷◌, Option, none, some, true, ◌≡◌, ◌≢◌, refl, ◌⊎◌, inl,
  arith, get_or, modify, count_from, length-modify, get_or-modify_self, get_or-modify_ne, ap, ◌∙◌,
  ap₂, subst, ◌%◌, ◌^◌, dec_lt, ℕ_discrete,
}
use cortex_forge_driver.Task.{
  Task, Pool, zero_task, max_tasks, is_used, matches, task_at, update_task, alloc_head, task_alloc,
  find_task, task_cancel, cancel_task,
}
use cortex_forge_driver.Task.Lookup.{
  task_cancel_none, task_cancel_first, find_task_first, find_task-none, length-task_cancel,
}
use cortex_forge_driver.Task.Slots.{IsInOrder, allocated, fresh_task, get_or-modify_keeps}
use cortex_forge_driver.Errno.{enoent, ok, fail}

count_from-pos : (k n : ℕ) → 0 < n → count_from k n ≡ k ∷ count_from (suc k) (n - 1)
count_from-pos k zero h = absurd (omega arith)
count_from-pos k (suc n) h = ap (λ m. k ∷ count_from (suc k) m) (omega arith)

-- The pool with the first slot of the free list handed out under id `id`.
abbrev hand_out : Pool → ℕ → ℕ → Option ℕ × Pool
hand_out p id left = (
  some p.next_task_id,
  record {
    tasks = modify p.tasks p.next_task_id (λ _. fresh_task id);
    free_tasks = count_from (suc p.next_task_id) left;
    next_task_id = id;
  },
)

module _ (p : Pool)
    (rest : p.free_tasks ≡ count_from p.next_task_id (max_tasks - p.next_task_id)) where
  pub task_alloc-rest :
      p.next_task_id < max_tasks → task_alloc p ≡ (some p.next_task_id, allocated p)
  unfolding task_alloc
  task_alloc-rest h =
      ap (alloc_head p)
        (rest ∙ count_from-pos p.next_task_id (max_tasks - p.next_task_id) (omega arith))
      ∙ ap₂ (hand_out p) counted left
    where
      counted : (p.next_task_id + 1) % 2 ^ 32 ≡ suc p.next_task_id
      counted = omega arith

      left : max_tasks - p.next_task_id - 1 ≡ max_tasks - suc p.next_task_id
      left = omega arith

  pub task_alloc-no_rest : p.next_task_id ≡ max_tasks → task_alloc p ≡ (none, p)
  unfolding task_alloc
  task_alloc-no_rest e = ap (alloc_head p) (rest ∙ ap (count_from p.next_task_id) used_up)
    where
      used_up : max_tasks - p.next_task_id ≡ 0
      used_up = omega arith

pub task_alloc-some :
    (p : Pool)
    → IsInOrder p
    → p.next_task_id < max_tasks
    → task_alloc p ≡ (some p.next_task_id, allocated p)
task_alloc-some p v = task_alloc-rest p v.rest

pub task_alloc-none :
    (p : Pool) → IsInOrder p → p.next_task_id ≡ max_tasks → task_alloc p ≡ (none, p)
task_alloc-none p v = task_alloc-no_rest p v.rest

-- An update that keeps the id and does not free the slot keeps the order.
pub update_task-IsInOrder :
    (p : Pool) (i : ℕ) (f : Task → Task)
    → ((t : Task) → (f t).id ≡ t.id)
    → ((t : Task) → is_used t.state ≡ true → is_used (f t).state ≡ true)
    → i < p.next_task_id
    → IsInOrder p
    → IsInOrder (update_task p i f)
update_task-IsInOrder p i f id used h v = record {
  size = length-modify p.tasks i f ∙ v.size;
  bound = v.bound;
  rest = v.rest;
  issued = λ j lt.
      get_or-modify_keeps (λ t. (t.id ≡ suc j) × (is_used t.state ≡ true)) p.tasks i j f
        (λ t e. (id t ∙ e.0, used t e.1)) (v.issued j lt);
  unissued = λ j le.
      ap (λ (t : Task). t.state) (get_or-modify_ne p.tasks i j f zero_task (omega arith))
      ∙ v.unissued j le;
}

-- What stands in the slot handed out, once it is filled.
pub task_at_filled :
    (p : Pool) (f : Task → Task)
    → p.next_task_id < max_tasks
    → IsInOrder p
    → task_at (update_task (allocated p) p.next_task_id f) p.next_task_id
      ≡ f (fresh_task (suc p.next_task_id))
task_at_filled p f h v =
    get_or-modify_self _ p.next_task_id f zero_task (
      omega (
        arith,
        length-modify p.tasks p.next_task_id (λ _. fresh_task (suc p.next_task_id)),
        v.size,
      ))
    ∙ ap f (get_or-modify_self p.tasks p.next_task_id _ zero_task (omega (arith, v.size)))

-- Handing out a slot and filling it, the id kept, keeps the order.
pub allocated-update-IsInOrder :
    (p : Pool) (f : Task → Task)
    → (f (fresh_task (suc p.next_task_id))).id ≡ suc p.next_task_id
    → is_used (f (fresh_task (suc p.next_task_id))).state ≡ true
    → p.next_task_id < max_tasks
    → IsInOrder p
    → IsInOrder (update_task (allocated p) p.next_task_id f)
allocated-update-IsInOrder p f id used h v = record {
  size = length-modify _ p.next_task_id f ∙ length-modify p.tasks p.next_task_id _ ∙ v.size;
  bound = h;
  rest = refl;
  issued = λ j lt. elim (ℕ_discrete p.next_task_id j) [
    | yes e ↦ subst IsIssued e (rw (task_at_filled p f h v) (id, used))
    | no ne ↦ rw (kept j ne) (v.issued j (omega arith))
  ];
  unissued = λ j le. ap (λ (t : Task). t.state) (kept j (omega arith)) ∙ v.unissued j (omega arith);
}
  where
    IsIssued : ℕ → Type 0
    IsIssued k =
        ((task_at (update_task (allocated p) p.next_task_id f) k).id ≡ suc k)
        × (is_used (task_at (update_task (allocated p) p.next_task_id f) k).state ≡ true)

    kept :
        (j : ℕ)
        → p.next_task_id ≢ j
        → task_at (update_task (allocated p) p.next_task_id f) j ≡ task_at p j
    kept j ne =
        get_or-modify_ne _ p.next_task_id j f zero_task ne
        ∙ get_or-modify_ne p.tasks p.next_task_id j _ zero_task ne

pub find_task_issued :
    (p : Pool)
    → IsInOrder p
    → (i : ℕ) → i < p.next_task_id
    → find_task (suc i) p.tasks ≡ some (task_at p i)
find_task_issued p v i h =
    find_task_first (suc i) p.tasks i (omega (arith, v.size, v.bound)) (ground (arith, v.issued i))
      (λ j lt. ground (arith, v.issued j))

pub find_task_unissued :
    (p : Pool)
    → IsInOrder p
    → (id : ℕ) → (id ≡ 0) ⊎ (p.next_task_id < id)
    → find_task id p.tasks ≡ none
find_task_unissued p v id out = find_task-none id p.tasks (λ j lt. elim (dec_lt j p.next_task_id) [
  | yes q ↦ ground (arith, v.issued j)
  | no q ↦ ground (arith, v.unissued j)
])

-- Over a pool in order the task of an id that has been handed out is cancelled, and for any other id
-- none is.
pub task_cancel-at :
    (p : Pool)
    → IsInOrder p
    → (i : ℕ) → i < p.next_task_id
    → task_cancel (suc i) p.tasks ≡ (ok, modify p.tasks i cancel_task)
task_cancel-at p v i h =
    task_cancel_first (suc i) p.tasks i (omega (arith, v.size, v.bound))
      (λ j lt. ground (arith, v.issued j)) (ground (arith, v.issued i))

pub task_cancel-unissued :
    (p : Pool)
    → IsInOrder p
    → (id : ℕ) → (id ≡ 0) ⊎ (p.next_task_id < id)
    → task_cancel id p.tasks ≡ (fail enoent, p.tasks)
task_cancel-unissued p v id out = task_cancel_none id p.tasks (λ j lt.
    elim (dec_lt j p.next_task_id) [
      | yes q ↦ ground (arith, v.issued j)
      | no q ↦ ground (arith, v.unissued j)
    ])

pub get_or-task_cancel :
    (id : ℕ) (ts : List Task) (i : ℕ)
    → (get_or (task_cancel id ts).1 i zero_task ≡ get_or ts i zero_task)
      ⊎ ((get_or (task_cancel id ts).1 i zero_task ≡ cancel_task (get_or ts i zero_task))
          × (matches id (get_or ts i zero_task) ≡ true))
unfolding task_cancel
get_or-task_cancel id [] i = inl refl
get_or-task_cancel id (t ∷ ts) zero = ground arith
get_or-task_cancel id (t ∷ ts) (suc i) = ground (arith, get_or-task_cancel id ts i)

pub task_cancel-IsInOrder :
    (p : Pool) (id : ℕ) → IsInOrder p → IsInOrder (record p { tasks = (task_cancel id p.tasks).1 })
task_cancel-IsInOrder p id v = record {
  size = length-task_cancel id p.tasks ∙ v.size;
  bound = v.bound;
  rest = v.rest;
  issued = λ j lt. ground (arith, get_or-task_cancel id p.tasks j, v.issued j);
  unissued = λ j le. ground (arith, get_or-task_cancel id p.tasks j, v.unissued j);
}
