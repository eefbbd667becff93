-- ===== src/Concurrent/Slots.antt =====
-- How the pool and the fields of its slots fare under the updates that callers and workers make.
use cortex_forge_driver.Base.{
  ℕ, suc, ◌<◌, ◌≡◌, ◌≢◌, ◌∙◌, refl, arith, ap, write, write_ne, length-modify, get_or-modify_self,
  get_or-modify_ne, ℕ_discrete, subst,
}
use cortex_forge_driver.Uapi.{TaskDesc}
use cortex_forge_driver.Task.{Task, Pool, max_tasks, task_at, update_task, zero_task}
use cortex_forge_driver.Task.Slots.{allocated, fresh_task, get_or-modify_keeps}
use cortex_forge_driver.Chardev.{fill}
use cortex_forge_driver.Worker.Effect.{IsLocal}
use cortex_forge_driver.Concurrent.{Place, calling}
use cortex_forge_driver.Concurrent.Sound.{IsPool, Carries}

module _ (p : Pool) (place : ℕ → Place) (v : IsPool p place) where
  pub IsPool-update :
      (i : ℕ) (f : Task → Task) → ((t : Task) → (f t).id ≡ t.id) → IsPool (update_task p i f) place
  IsPool-update i f id = record {
    size = length-modify p.tasks i f ∙ v.size;
    bound = v.bound;
    rest = v.rest;
    ids = λ j lt.
        get_or-modify_keeps (λ t. t.id ≡ suc j) p.tasks i j f (λ t e. id t ∙ e) (v.ids j lt);
    fresh = v.fresh;
  }

  -- A slot that has been handed out moves.
  pub IsPool-write : (i : ℕ) (x : Place) → i < p.next_task_id → IsPool p (write place i x)
  IsPool-write i x lt = record {
    size = v.size;
    bound = v.bound;
    rest = v.rest;
    ids = v.ids;
    fresh = λ j le. write_ne place i j x (omega arith) ∙ v.fresh j le;
  }

  pub IsPool-allocated :
      p.next_task_id < max_tasks → IsPool (allocated p) (write place p.next_task_id calling)
  IsPool-allocated h = record {
    size = length-modify p.tasks p.next_task_id _ ∙ v.size;
    bound = h;
    rest = refl;
    ids = λ j lt. elim (ℕ_discrete p.next_task_id j) [
      | yes e ↦
          subst (λ k. (task_at (allocated p) k).id ≡ suc k) e
            (ap (λ (t : Task). t.id)
              (get_or-modify_self p.tasks p.next_task_id (λ _. fresh_task (suc p.next_task_id))
                zero_task (omega (arith, v.size))))
      | no ne ↦
          ap (λ (t : Task). t.id) (get_or-modify_ne p.tasks p.next_task_id j _ zero_task ne)
          ∙ v.ids j (omega arith)
    ];
    fresh = λ j le. write_ne place p.next_task_id j calling (omega arith) ∙ v.fresh j (omega arith);
  }

  pub Carries-fill :
      (i : ℕ) (desc : TaskDesc) → i < p.next_task_id → Carries (update_task p i (fill desc)) i desc
  Carries-fill i desc lt =
      rw (get_or-modify_self p.tasks i (fill desc) zero_task (omega (arith, v.size, v.bound))) refl

pub Carries-update :
    (p : Pool) (i j : ℕ) (f : Task → Task) (desc : TaskDesc)
    → IsLocal f
    → Carries p i desc
    → Carries (update_task p j f) i desc
Carries-update p i j f desc loc e =
    get_or-modify_keeps (λ t. fill desc t ≡ t) p.tasks j i f (λ t h. loc.fields desc t ∙ ap f h) e

pub Carries-other :
    (p : Pool) (i j : ℕ) (f : Task → Task) (desc : TaskDesc)
    → j ≢ i
    → Carries p i desc
    → Carries (update_task p j f) i desc
Carries-other p i j f desc ne e = rw (get_or-modify_ne p.tasks j i f zero_task ne) e
