-- ===== src/Task/Reuse.antt =====
-- task_free and task_alloc of src/task_manager.c together.
use cortex_forge_driver.Base.{
  ℕ, ◌+◌, ◌%◌, ◌^◌, ◌≡◌, [], ◌∷◌, ◌++◌, some, ap, modify, modify-modify, ◌∙◌,
}
use cortex_forge_driver.Task.{Pool, zero_task, free, task_alloc, task_free, alloc_head}

-- A slot that is returned to a pool without free slots is the one that the next allocation hands out,
-- zeroed but for its id, which is the next of the 32-bit counter; the pool is then without free slots
-- again.
pub task_alloc-task_free :
    (p : Pool) (i : ℕ)
    → p.free_tasks ≡ []
    → task_alloc (task_free p i) ≡ (
      some i,
      record {
        tasks = modify p.tasks i (λ _. record zero_task { id = (p.next_task_id + 1) % 2 ^ 32 });
        free_tasks = [];
        next_task_id = (p.next_task_id + 1) % 2 ^ 32;
      },
    )
unfolding task_alloc task_free
task_alloc-task_free p i e =
    ap (λ l. alloc_head (task_free p i) (l ++ i ∷ [])) e
    ∙ ap
        (λ ts. (
          some i,
          record { tasks = ts; free_tasks = []; next_task_id = (p.next_task_id + 1) % 2 ^ 32 },
        ))
        (modify-modify p.tasks i (λ t. record t { state = free })
          (λ _. record zero_task { id = (p.next_task_id + 1) % 2 ^ 32 }))
