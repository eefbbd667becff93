-- ===== src/Concurrent/Sound.antt =====
-- What holds of the pool, the lanes and the calls while submissions are under way.
use cortex_forge_driver.Base.{ℕ, suc, ◌≤◌, ◌<◌, ◌-◌, ◌≡◌, ◌≢◌, arith, length, count_from, write}
use cortex_forge_driver.Uapi.{TaskDesc}
use cortex_forge_driver.Task.{Pool, max_tasks, task_at}
use cortex_forge_driver.Accel.{Accel, num_accelerators}
use cortex_forge_driver.Device.{Dev, accel_at}
use cortex_forge_driver.Chardev.{fill}
use cortex_forge_driver.Worker.{Pc}
use cortex_forge_driver.System.Order.{holds, to_list}
use cortex_forge_driver.Concurrent.{
  waking, blaming, marking, scanning, Call, returned, filling, submitting, dating, adding,
  answering, Place, unissued, calling, queued, working,
}
use cortex_forge_driver.Concurrent.Owned.{Owned, Held, Owned-write, Owned-Absent, Held-write}

-- Slots are handed out in order and never come back; a slot that is handed out has its id from then on.
pub record IsPool (p : Pool) (place : ℕ → Place) : Type 0 where
  pub size : length p.tasks ≡ max_tasks
  pub bound : p.next_task_id ≤ max_tasks
  pub rest : p.free_tasks ≡ count_from p.next_task_id (max_tasks - p.next_task_id)
  pub ids : (i : ℕ) → i < p.next_task_id → (task_at p i).id ≡ suc i
  pub fresh : (i : ℕ) → p.next_task_id ≤ i → place i ≡ unissued

-- The slot has the fields of the descriptor.
abbrev pub Carries : Pool → ℕ → TaskDesc → Type 0
Carries p i desc = fill desc (task_at p i) ≡ task_at p i

pub record IsLane (place : ℕ → Place) (a : ℕ) (x : Accel) (p : Pc) : Type 0 where
  pub queue : Owned place (queued a) x.task_queue
  pub active : x.active_tasks ≡ to_list (holds p)
  pub held : Held place (working a) (holds p)

module _ (p : Pool) (place : ℕ → Place) (caller : ℕ → ℕ) (c : ℕ) where
  -- Caller `c` has got the slot, and not queued it.
  pub record IsMine (i : ℕ) (desc : TaskDesc) : Type 0 where
    pub issued : i < p.next_task_id
    pub mine : caller i ≡ c
    pub here : place i ≡ calling
    pub accel : desc.accel_type < num_accelerators

  abbrev pub IsCall : Call → Type 0
  IsCall (returned ret) = Unit {0}
  IsCall (filling i desc) = IsMine i desc
  IsCall (submitting i desc) = IsMine i desc × Carries p i desc
  IsCall (dating i desc) = IsMine i desc × Carries p i desc
  IsCall (adding i desc) = IsMine i desc × Carries p i desc
  IsCall (answering i desc) = (i < p.next_task_id) × (caller i ≡ c)
  IsCall _ = Unit {0}

pub record IsRace (d : Dev) (pc : ℕ → Pc) (calls : ℕ → Call) (place : ℕ → Place) (caller : ℕ → ℕ)
    : Type 0 where
  pub pool : IsPool d.pool place
  pub three : length d.accelerators ≡ num_accelerators
  pub lanes : (a : ℕ) → IsLane place a (accel_at d a) (pc a)
  pub callers : (c : ℕ) → IsCall d.pool place caller c (calls c)

-- Another slot moves.
pub IsLane-write :
    {place : ℕ → Place} {a : ℕ} {x : Accel} {p : Pc} (i : ℕ) (y : Place)
    → place i ≢ queued a
    → place i ≢ working a
    → IsLane place a x p
    → IsLane (write place i y) a x p
IsLane-write {place} {a} {x} {p} i y nq nw v = record {
  queue =
      Owned-write place (queued a) i y x.task_queue
        (Owned-Absent place (queued a) i x.task_queue nq v.queue) v.queue;
  active = v.active;
  held = Held-write place (working a) i y (holds p) nw v.held;
}

-- What a call asks for is kept when the slots that its caller got are left alone.
module _ (p p' : Pool) (place place' : ℕ → Place) (caller caller' : ℕ → ℕ) (c : ℕ)
    (le : p.next_task_id ≤ p'.next_task_id)
    (mine : (i : ℕ) → i < p.next_task_id → caller i ≡ c → caller' i ≡ c)
    (here : (i : ℕ) → i < p.next_task_id → caller i ≡ c → place i ≡ calling → place' i ≡ calling)
    (carries : (i : ℕ) (desc : TaskDesc)
      → i < p.next_task_id
      → caller i ≡ c
      → place i ≡ calling
      → Carries p i desc
      → Carries p' i desc) where
  kept :
      (i : ℕ) (desc : TaskDesc) → IsMine p place caller c i desc → IsMine p' place' caller' c i desc
  kept i desc v = record {
    issued = omega (arith, v.issued);
    mine = mine i v.issued v.mine;
    here = here i v.issued v.mine v.here;
    accel = v.accel;
  }

  filled :
      (i : ℕ) (desc : TaskDesc)
      → IsMine p place caller c i desc × Carries p i desc
      → IsMine p' place' caller' c i desc × Carries p' i desc
  filled i desc (v, h) = (kept i desc v, carries i desc v.issued v.mine v.here h)

  pub IsCall-kept : (k : Call) → IsCall p place caller c k → IsCall p' place' caller' c k
  IsCall-kept (returned ret) v = tt
  IsCall-kept (filling i desc) v = kept i desc v
  IsCall-kept (submitting i desc) v = filled i desc v
  IsCall-kept (dating i desc) v = filled i desc v
  IsCall-kept (adding i desc) v = filled i desc v
  IsCall-kept (answering i desc) v = (omega (arith, v.0), mine i v.0 v.1)
  IsCall-kept (scanning id i) v = tt
  IsCall-kept (marking i) v = tt
  IsCall-kept (blaming i) v = tt
  IsCall-kept (waking i) v = tt
