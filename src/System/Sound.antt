-- ===== src/System/Sound.antt =====
-- The invariant of the running driver, and that every step keeps it.
use cortex_forge_driver.Base.{
  arith, sym, ◌∙◌, [], ◌∷◌, ap, true, some, length-modify, ℕ, ◌≤◌, ◌<◌, List, ◌++◌, ◌≡◌, refl,
  subst, length, modify, get_or, get_or-modify_self, get_or-modify_ne, write, write_self, write_ne,
  ℕ_discrete,
}
use cortex_forge_driver.Task.Slots.{IsInOrder}
use cortex_forge_driver.Accel.{Accel, num_accelerators, zero_accel}
use cortex_forge_driver.Device.{set_task, set_accel, Dev, accel_at}
use cortex_forge_driver.Worker.{
  timing, signalling, raise_load, lower_load, list_del, unlinking, unloading, loading, starting,
  testing, locking, take_head, Pc,
}
use cortex_forge_driver.System.Order.{
  to_list, held_lt, Between, Latest, loaded, holds, Between-mono, after_latest, IsLane, IsLane-eq,
}
use cortex_forge_driver.Task.{is_used, Task}
use cortex_forge_driver.System.{first_of_queue}
use cortex_forge_driver.Task.Issue.{update_task-IsInOrder}

pub record IsSound (d : Dev) (pc : ℕ → Pc) (log : ℕ → List ℕ) : Type 0 where
  pub order : IsInOrder d.pool
  pub three : length d.accelerators ≡ num_accelerators
  pub lanes : (a : ℕ) → IsLane d.pool.next_task_id (accel_at d a) (pc a) (log a)

IsLane-mono :
    {n n' : ℕ} {x : Accel} {p : Pc} {log : List ℕ} → n ≤ n' → IsLane n x p log → IsLane n' x p log
IsLane-mono {x} {log} h v = record {
  falling = v.falling;
  queue = Between-mono (after_latest log) x.task_queue h v.queue;
  latest = v.latest;
  active = v.active;
  load = v.load;
}

-- A change of one lane.
pub lanes_write :
    (n n' : ℕ) (xs : List Accel) (pc : ℕ → Pc) (log : ℕ → List ℕ) (a : ℕ) (f : Accel → Accel)
    (p : Pc) (more : List ℕ)
    → n ≤ n'
    → a < length xs
    → ((b : ℕ) → IsLane n (get_or xs b zero_accel) (pc b) (log b))
    → IsLane n' (f (get_or xs a zero_accel)) p (more ++ log a)
    → (b : ℕ)
    → IsLane n'
        (get_or (modify xs a f) b zero_accel)
        (write pc a p b)
        (write log a (more ++ log a) b)
lanes_write n n' xs pc log a f p more h lt all changed b = elim (ℕ_discrete a b) [
  | yes e ↦
      subst
        (λ k.
          IsLane n' (get_or (modify xs a f) k zero_accel) (write pc a p k)
            (write log a (more ++ log a) k))
        e
        (IsLane-eq (get_or-modify_self xs a f zero_accel lt) (write_self pc a p)
          (write_self log a (more ++ log a)) changed)
  | no ne ↦
      IsLane-eq (get_or-modify_ne xs a b f zero_accel ne) (write_ne pc a b p ne)
        (write_ne log a b (more ++ log a) ne) (IsLane-mono h (all b))
]

-- A change of one worker's place alone.
lanes_move :
    (n : ℕ) (xs : List Accel) (pc : ℕ → Pc) (log : ℕ → List ℕ) (a : ℕ) (p : Pc)
    → ((b : ℕ) → IsLane n (get_or xs b zero_accel) (pc b) (log b))
    → IsLane n (get_or xs a zero_accel) p (log a)
    → (b : ℕ) → IsLane n (get_or xs b zero_accel) (write pc a p b) (write log a (log a) b)
lanes_move n xs pc log a p all moved b = elim (ℕ_discrete a b) [
  | yes e ↦
      subst (λ k. IsLane n (get_or xs k zero_accel) (write pc a p k) (write log a (log a) k)) e
        (IsLane-eq refl (write_self pc a p) (write_self log a (log a)) moved)
  | no ne ↦ IsLane-eq refl (write_ne pc a b p ne) (write_ne log a b (log a) ne) (all b)
]

-- A lane whose worker moves on with the same task and load.
IsLane-move :
    {n : ℕ} {x : Accel} {q : Pc} {log : List ℕ} (p p' : Pc)
    → q ≡ p
    → IsLane n x q log
    → (holds p' ≡ holds p) × (loaded p' ≡ loaded p)
    → IsLane n x p' log
IsLane-move {log} p p' at v same = record {
  falling = v.falling;
  queue = v.queue;
  latest = subst (λ o. Latest o log) (ap holds at ∙ sym same.0) v.latest;
  active = v.active ∙ ap to_list (ap holds at ∙ sym same.0);
  load = v.load ∙ ap loaded at ∙ sym same.1;
}

module _ (d : Dev) (pc : ℕ → Pc) (log : ℕ → List ℕ) (a : ℕ) where
  -- A step that changes nothing but the worker's place.
  pub move-IsSound :
      (p p' : Pc)
      → a < num_accelerators
      → pc a ≡ p
      → IsSound d pc log
      → (holds p' ≡ holds p) × (loaded p' ≡ loaded p)
      → IsSound d (write pc a p') (write log a (log a))
  move-IsSound p p' lt at v same = record {
    order = v.order;
    three = v.three;
    lanes =
        lanes_move d.pool.next_task_id d.accelerators pc log a p' v.lanes
          (IsLane-move p p' at (v.lanes a) same);
  }

  -- A step that writes to the task that the worker holds.
  pub task-IsSound :
      (p p' : Pc) (i : ℕ) (f : Task → Task)
      → a < num_accelerators
      → pc a ≡ p
      → IsSound d pc log
      → holds p ≡ some i
      → (holds p' ≡ holds p) × (loaded p' ≡ loaded p)
      → ((t : Task) → (f t).id ≡ t.id)
      → ((t : Task) → is_used t.state ≡ true → is_used (f t).state ≡ true)
      → IsSound (set_task d i f) (write pc a p') (write log a (log a))
  task-IsSound p p' i f lt at v held same id used = record {
    order =
        update_task-IsInOrder d.pool i f id used (held_lt (v.lanes a) (ap holds at ∙ held)) v.order;
    three = v.three;
    lanes =
        lanes_move d.pool.next_task_id d.accelerators pc log a p' v.lanes
          (IsLane-move p p' at (v.lanes a) same);
  }

  -- A step that writes to the accelerator.
  pub accel-IsSound :
      (p' : Pc) (f : Accel → Accel) (more : List ℕ)
      → a < num_accelerators
      → IsSound d pc log
      → IsLane d.pool.next_task_id (f (accel_at d a)) p' (more ++ log a)
      → IsSound (set_accel d a f) (write pc a p') (write log a (more ++ log a))
  accel-IsSound p' f more lt v lane = record {
    order = v.order;
    three = length-modify d.accelerators a f ∙ v.three;
    lanes =
        lanes_write d.pool.next_task_id d.pool.next_task_id d.accelerators pc log a f p' more
          (omega arith) (omega (arith, v.three)) v.lanes lane;
  }

  pub take-IsSound :
      (queue : List ℕ)
      → a < num_accelerators
      → pc a ≡ locking
      → (accel_at d a).task_queue ≡ queue
      → IsSound d pc log
      → IsSound
          (take_head d a queue).0
          (write pc a (take_head d a queue).1)
          (write log a (first_of_queue queue ++ log a))
  unfolding take_head
  take-IsSound [] lt at q v = move-IsSound locking testing lt at v (refl, refl)
  take-IsSound (i ∷ rest) lt at q v = accel-IsSound (starting i) _ (i ∷ []) lt v (record {
    falling = (first.0, lane.falling);
    queue = first.1;
    latest = refl;
    active = ap (λ js. js ++ i ∷ []) (lane.active ∙ ap (λ p. to_list (holds p)) at);
    load = lane.load ∙ ap loaded at;
  })
    where
      lane : IsLane d.pool.next_task_id (accel_at d a) (pc a) (log a)
      lane = v.lanes a

      first : Between (after_latest (log a)) (i ∷ rest) d.pool.next_task_id
      first = subst (λ js. Between (after_latest (log a)) js d.pool.next_task_id) q lane.queue

-- The writes of a worker to its accelerator.
module _ {n : ℕ} {x : Accel} {q : Pc} {log : List ℕ} {i : ℕ} (v : IsLane n x q log) where
  pub IsLane-load :
      q ≡ loading i
      → IsLane n (record x { load_percent = raise_load x.load_percent }) (timing i) log
  IsLane-load at = record {
    falling = v.falling;
    queue = v.queue;
    latest = subst (λ p. Latest (holds p) log) at v.latest;
    active = v.active ∙ ap (λ p. to_list (holds p)) at;
    load = ap raise_load (v.load ∙ ap loaded at);
  }

  pub IsLane-unload :
      q ≡ unloading i
      → IsLane n (record x { load_percent = lower_load x.load_percent }) (signalling i) log
  IsLane-unload at = record {
    falling = v.falling;
    queue = v.queue;
    latest = subst (λ p. Latest (holds p) log) at v.latest;
    active = v.active ∙ ap (λ p. to_list (holds p)) at;
    load = ap lower_load (v.load ∙ ap loaded at);
  }

  pub IsLane-unlink :
      q ≡ unlinking i → IsLane n (record x { active_tasks = list_del i x.active_tasks }) testing log
  IsLane-unlink at = record {
    falling = v.falling;
    queue = v.queue;
    latest = tt;
    active = ap (list_del i) (v.active ∙ ap (λ p. to_list (holds p)) at) ∙ ground arith;
    load = v.load ∙ ap loaded at;
  }
