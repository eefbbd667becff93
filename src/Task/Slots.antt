-- ===== src/Task/Slots.antt =====
-- The pool as the driver uses it: slots are handed out in order and never come back, so the free list
-- is the tail of the slot numbers, and slot `i` holds the task of id `i + 1`.
use mathlib.Core.List.{append-nil, append_assoc}
use cortex_forge_driver.Base.{
  ℕ, zero, suc, ◌-◌, ◌≤◌, ◌<◌, List, [], ◌∷◌, ◌++◌, true, ◌≡◌, refl, arith, length, get_or, modify,
  count_from, length-modify, get_or-replicate, ap, ◌∙◌, sym,
}
use cortex_forge_driver.Task.{
  Task, Pool, zero_pool, zero_task, max_tasks, free, is_used, task_at, init_from, task_pool_init,
}

pub record IsInOrder (p : Pool) : Type 0 where
  pub size : length p.tasks ≡ max_tasks
  pub bound : p.next_task_id ≤ max_tasks
  pub rest : p.free_tasks ≡ count_from p.next_task_id (max_tasks - p.next_task_id)
  pub issued :
      (i : ℕ)
      → i < p.next_task_id
      → ((task_at p i).id ≡ suc i) × (is_used (task_at p i).state ≡ true)
  pub unissued : (i : ℕ) → p.next_task_id ≤ i → (task_at p i).state ≡ free

-- Any property of a slot that an update keeps, it keeps at every slot.
pub get_or-modify_keeps {κ} :
    (P : Task → Type κ) (ts : List Task) (i j : ℕ) (f : Task → Task)
    → ((t : Task) → P t → P (f t))
    → P (get_or ts j zero_task)
    → P (get_or (modify ts i f) j zero_task)
get_or-modify_keeps P [] i j f keep h = h
get_or-modify_keeps P (t ∷ ts) zero zero f keep h = keep t h
get_or-modify_keeps P (t ∷ ts) zero (suc j) f keep h = h
get_or-modify_keeps P (t ∷ ts) (suc i) zero f keep h = h
get_or-modify_keeps P (t ∷ ts) (suc i) (suc j) f keep h = get_or-modify_keeps P ts i j f keep h

free_tasks-init_from :
    (n i : ℕ) (p : Pool) → (init_from n i p).free_tasks ≡ p.free_tasks ++ count_from i n
unfolding init_from
free_tasks-init_from zero i p = sym (append-nil p.free_tasks)
free_tasks-init_from (suc n) i p =
    free_tasks-init_from n (suc i) _ ∙ append_assoc p.free_tasks (i ∷ []) (count_from (suc i) n)

length-init_from : (n i : ℕ) (p : Pool) → length (init_from n i p).tasks ≡ length p.tasks
unfolding init_from
length-init_from zero i p = refl
length-init_from (suc n) i p = length-init_from n (suc i) _ ∙ length-modify p.tasks i _

next-init_from : (n i : ℕ) (p : Pool) → (init_from n i p).next_task_id ≡ p.next_task_id
unfolding init_from
next-init_from zero i p = refl
next-init_from (suc n) i p = next-init_from n (suc i) _

init_from-free :
    (n i : ℕ) (p : Pool) (j : ℕ)
    → (task_at p j).state ≡ free
    → (task_at (init_from n i p) j).state ≡ free
unfolding init_from
init_from-free zero i p j h = h
init_from-free (suc n) i p j h =
    init_from-free n (suc i) _ j
      (get_or-modify_keeps (λ t. t.state ≡ free) p.tasks i j _ (λ t e. refl) h)

pub task_pool_init-IsInOrder : IsInOrder (task_pool_init zero_pool)
unfolding task_pool_init
task_pool_init-IsInOrder = record {
  size = length-init_from max_tasks 0 zero_pool;
  bound = omega (arith, next-init_from max_tasks 0 zero_pool);
  rest = rw (next-init_from max_tasks 0 zero_pool) (free_tasks-init_from max_tasks 0 zero_pool);
  issued = λ i h. absurd (omega (arith, next-init_from max_tasks 0 zero_pool));
  unissued = λ i h.
      init_from-free max_tasks 0 zero_pool i
        (ap (λ (t : Task). t.state) (get_or-replicate max_tasks i zero_task));
}

-- The slot that task_alloc hands out.
abbrev pub fresh_task : ℕ → Task
fresh_task id = record zero_task { id = id }

-- The pool that task_alloc leaves.
abbrev pub allocated : Pool → Pool
allocated p = record {
  tasks = modify p.tasks p.next_task_id (λ _. fresh_task (suc p.next_task_id));
  free_tasks = count_from (suc p.next_task_id) (max_tasks - suc p.next_task_id);
  next_task_id = suc p.next_task_id;
}

pub next_task_id-task_pool_init : (task_pool_init zero_pool).next_task_id ≡ 0
unfolding task_pool_init
next_task_id-task_pool_init = next-init_from max_tasks 0 zero_pool
