-- ===== src/System/Waiting.antt =====
-- The tasks in the queues are pending or cancelled: what every step keeps.
use cortex_forge_driver.Base.{
  zero, inr, inl, ℕ, suc, List, [], ◌∷◌, Bool, true, false, some, ◌≡◌, ◌≢◌, ◌<◌, ◌≤◌, refl, arith,
  ap, sym, ◌∙◌, subst, length, ℕ_discrete, get_or-modify_self, get_or-modify_ne, get_or-modify_map,
}
use cortex_forge_driver.System.Ended.{task_of-worker_step, Latest-has}
use cortex_forge_driver.Device.{init_device, set_accel, Dev, task_of, accel_at}
use cortex_forge_driver.Kernel.{Clock}
use cortex_forge_driver.Worker.{
  Pc, Moment, worker_step, take_head, locking, loading, unloading, unlinking,
}
use cortex_forge_driver.System.Sound.{IsSound}
use cortex_forge_driver.System.Targets.{lane_accept, task_other, IsPlaced}
use cortex_forge_driver.System.Order.{after_latest, holds, Between}
use cortex_forge_driver.System.Placement.{has-Falling, has}
use cortex_forge_driver.Task.{max_tasks, Task, TaskState, pending, cancelled}
use cortex_forge_driver.Accel.{accel_init, zero_accel, Accel}
use cortex_forge_driver.Chardev.Frame.{accepts, cancels, unchanged, cancel_in, Effect}
use cortex_forge_driver.Uapi.{TaskDesc}
use cortex_forge_driver.Task.Issue.{get_or-task_cancel}
use cortex_forge_driver.System.{boot}
use cortex_forge_driver.Task.Slots.{IsInOrder}
use cortex_forge_driver.Chardev.Submit.{accept-task, accept}

abbrev pub is_waiting : TaskState → Bool
is_waiting pending = true
is_waiting cancelled = true
is_waiting _ = false

-- Every task in a queue is pending or cancelled.
abbrev pub IsWaiting : Dev → Type 0
IsWaiting d =
    (b j : ℕ) → has j (accel_at d b).task_queue ≡ true → is_waiting (task_of d j).state ≡ true

-- What stands in a rising list is not below its bound.
pub has-Between-le : (j lo : ℕ) (js : List ℕ) (hi : ℕ) → Between lo js hi → has j js ≡ true → lo ≤ j
has-Between-le j lo [] hi b h = cc
has-Between-le j lo (i ∷ js) hi b h = ground (arith, has-Between-le j (suc i) js hi b.1, b.0)

module _ (clock : Clock) (e : Moment) (d : Dev) (a : ℕ) (b j : ℕ) where
  same_queue :
      (f : Accel → Accel)
      → ((x : Accel) → (f x).task_queue ≡ x.task_queue)
      → has j (accel_at (set_accel d a f) b).task_queue ≡ true
      → has j (accel_at d b).task_queue ≡ true
  same_queue f keep h =
      ap (has j)
        (sym (get_or-modify_map (λ (x : Accel). x.task_queue) d.accelerators a b f zero_accel keep))
      ∙ h

  queue-take_head :
      (queue : List ℕ)
      → a < length d.accelerators
      → (accel_at d a).task_queue ≡ queue
      → has j (accel_at (take_head d a queue).0 b).task_queue ≡ true
      → has j (accel_at d b).task_queue ≡ true
  unfolding take_head
  queue-take_head [] lt q h = h
  queue-take_head (i ∷ rest) lt q h = elim (ℕ_discrete a b) [
    | yes same ↦
        subst Shrinks same
          (λ k.
            let there : has j rest ≡ true =
              ap (λ (x : Accel). has j x.task_queue)
                (sym (get_or-modify_self d.accelerators a _ zero_accel lt))
              ∙ k in
            ap (has j) q ∙ ground (arith, there))
          h
    | no ne ↦
        ap (λ (x : Accel). has j x.task_queue)
          (sym (get_or-modify_ne d.accelerators a b _ zero_accel ne))
        ∙ h
  ]
    where
      Shrinks : ℕ → Type 0
      Shrinks k =
          has j (accel_at (take_head d a (i ∷ rest)).0 k).task_queue ≡ true
          → has j (accel_at d k).task_queue ≡ true

  -- A worker's step puts nothing on a queue.
  pub queue-worker_step :
      (p : Pc)
      → a < length d.accelerators
      → has j (accel_at (worker_step clock e d a p).0 b).task_queue ≡ true
      → has j (accel_at d b).task_queue ≡ true
  unfolding worker_step
  queue-worker_step locking lt h = queue-take_head (accel_at d a).task_queue lt refl h
  queue-worker_step (loading i) lt h = same_queue _ (λ x. refl) h
  queue-worker_step (unloading i) lt h = same_queue _ (λ x. refl) h
  queue-worker_step (unlinking i) lt h = same_queue _ (λ x. refl) h
  queue-worker_step _ lt h = h

-- A task in a queue is not held by a worker.
queued_not_held :
    (d : Dev) (pc : ℕ → Pc) (log : ℕ → List ℕ) (a b j : ℕ)
    → IsSound d pc log
    → IsPlaced d log
    → has j (accel_at d b).task_queue ≡ true
    → holds (pc a) ≢ some j
queued_not_held d pc log a b j s v queued held = elim (ℕ_discrete a b) [
  | yes same ↦
      absurd (apart (subst (λ k. has j (accel_at d k).task_queue ≡ true) (sym same) queued))
  | no ne ↦
      absurd (ne (sym (v.own a j (ground (arith, logged))) ∙ v.own b j (ground (arith, queued))))
]
  where
    logged : has j (log a) ≡ true
    logged = Latest-has (holds (pc a)) (log a) j (s.lanes a).latest held

    apart : has j (accel_at d a).task_queue ≡ true → ⊥
    apart q = absurd (
        omega (
          arith,
          has-Between-le j (after_latest (log a)) (accel_at d a).task_queue d.pool.next_task_id
              (s.lanes a).queue q,
          has-Falling j (log a) (s.lanes a).falling logged,
        ))

pub work-IsWaiting :
    (clock : Clock) (e : Moment) (d : Dev) (pc : ℕ → Pc) (log : ℕ → List ℕ) (a : ℕ)
    → a < length d.accelerators
    → IsSound d pc log
    → IsPlaced d log
    → IsWaiting d
    → IsWaiting (worker_step clock e d a (pc a)).0
work-IsWaiting clock e d pc log a lt s v w b j h =
    let before : has j (accel_at d b).task_queue ≡ true =
      queue-worker_step clock e d a b j (pc a) lt h in
    ap (λ (t : Task). is_waiting t.state)
      (task_of-worker_step clock e d a j (pc a) (queued_not_held d pc log a b j s v before))
    ∙ w b j before

cancel-IsWaiting : (d : Dev) (id : ℕ) → IsWaiting d → IsWaiting (cancel_in d id)
cancel-IsWaiting d id w b j h = elim (get_or-task_cancel id d.pool.tasks j) [
  | inl same ↦ ap (λ (t : Task). is_waiting t.state) same ∙ w b j h
  | inr (q, _) ↦ ap (λ (t : Task). is_waiting t.state) q
]

accept-IsWaiting :
    (d : Dev) (desc : TaskDesc) (now : ℕ)
    → desc.accel_type < length d.accelerators
    → d.pool.next_task_id < max_tasks
    → IsInOrder d.pool
    → IsWaiting d
    → IsWaiting (accept d desc now)
accept-IsWaiting d desc now lt room v w b j h = elim (ℕ_discrete d.pool.next_task_id j) [
  | yes new ↦
      subst (λ k. is_waiting (task_of (accept d desc now) k).state ≡ true) new
        (ap (λ (t : Task). is_waiting t.state) (accept-task d desc now room v))
  | no ne ↦
      ap (λ (t : Task). is_waiting t.state) (task_other d desc now j ne)
      ∙ w b j (ground (arith, h, ne, lane_accept d desc now (λ _. []) b j lt))
]

pub Effect-IsWaiting :
    {now : ℕ} {d d' : Dev} (pc : ℕ → Pc) (log : ℕ → List ℕ)
    → Effect now d d'
    → IsSound d pc log
    → IsWaiting d
    → IsWaiting d'
Effect-IsWaiting pc log (unchanged e) s w = rw e w
Effect-IsWaiting {d} pc log (cancels id e) s w = rw e (cancel-IsWaiting d id w)
Effect-IsWaiting {now} {d} pc log (accepts desc acc h e) s w =
    rw e (accept-IsWaiting d desc now (omega (arith, acc.accel, s.three)) h s.order w)

pub boot_queue_empty : (b j : ℕ) → has j (accel_at boot.dev b).task_queue ≡ false
unfolding init_device accel_init
boot_queue_empty zero j = refl
boot_queue_empty (suc zero) j = refl
boot_queue_empty (suc (suc zero)) j = refl
boot_queue_empty (suc (suc (suc b))) j = refl
