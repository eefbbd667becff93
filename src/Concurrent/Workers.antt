-- ===== src/Concurrent/Workers.antt =====
-- The moves of the workers keep the invariant.
use cortex_forge_driver.Base.{
  ℕ, ◌<◌, ◌≡◌, ◌≢◌, ◌∙◌, refl, arith, sym, subst, ap, List, [], ◌∷◌, ◌++◌, none, inl, inr, write,
  write_self, write_ne, length-modify, ℕ_discrete, dec_lt,
}
use cortex_forge_driver.Kernel.{Clock}
use cortex_forge_driver.Accel.{Accel, num_accelerators}
use cortex_forge_driver.Device.{Dev, accel_at, set_task, set_accel}
use cortex_forge_driver.System.Order.{holds, to_list}
use cortex_forge_driver.Worker.{
  Pc, locking, starting, testing, Moment, worker_step, take_head, list_del,
}
use cortex_forge_driver.Worker.Effect.{
  WorkEffect, moves, updates, loads, unlinks, worker_step-Effect, locking_cases,
}
use cortex_forge_driver.Concurrent.{Call, Place, queued, working, place_of_head, place_of_work}
use cortex_forge_driver.Concurrent.Owned.{Owned, Owned-write}
use cortex_forge_driver.Concurrent.Sound.{IsLane, IsLane-write, IsCall-kept, IsRace}
use cortex_forge_driver.Concurrent.Callers.{lanes_modify}
use cortex_forge_driver.Concurrent.Slots.{IsPool-update, IsPool-write, Carries-update}

-- The lane sees of the worker only the slot that it holds.
IsLane-holds :
    {place : ℕ → Place} {a : ℕ} {x : Accel} {p p' : Pc}
    → holds p' ≡ holds p
    → IsLane place a x p
    → IsLane place a x p'
IsLane-holds e v = record {
  queue = v.queue;
  active = v.active ∙ ap to_list (sym e);
  held = rw e v.held;
}

module _ (d : Dev) (pc : ℕ → Pc) (calls : ℕ → Call) (place : ℕ → Place) (caller : ℕ → ℕ)
    (v : IsRace d pc calls place caller) where
  issued : (i a : ℕ) → place i ≡ queued a → i < d.pool.next_task_id
  issued i a e = elim (dec_lt i d.pool.next_task_id) [
    | yes lt ↦ lt
    | no nlt ↦ cc (v.pool.fresh i (omega arith), e)
  ]

  module _ (a : ℕ) (p' : Pc) where
    lanes_held : holds p' ≡ holds (pc a) → (b : ℕ) → IsLane place b (accel_at d b) (write pc a p' b)
    lanes_held e b = elim (ℕ_discrete a b) [
      | yes same ↦
          subst (λ b. IsLane place b (accel_at d b) (write pc a p' b)) same
            (IsLane-holds (ap holds (write_self pc a p') ∙ e) (v.lanes a))
      | no ne ↦ IsLane-holds (ap holds (write_ne pc a b p' ne)) (v.lanes b)
    ]

    accel-IsRace :
        (f : Accel → Accel)
        → a < num_accelerators
        → IsLane place a (f (accel_at d a)) p'
        → IsRace (set_accel d a f) (write pc a p') calls place caller
    accel-IsRace f lt lane = record {
      pool = v.pool;
      three = length-modify d.accelerators a f ∙ v.three;
      lanes =
          lanes_modify place d.accelerators pc (write pc a p') a f (omega (arith, v.three))
            (rw (write_self pc a p') lane) (λ b ne. write_ne pc a b p' ne) (λ b ne. v.lanes b);
      callers = v.callers;
    }

    -- The step of the worker, but for the one that takes the head of the queue.
    effect-IsRace :
        {d' : Dev}
        → a < num_accelerators
        → WorkEffect a d (pc a) d' p'
        → IsRace d' (write pc a p') calls place caller
    effect-IsRace lt (moves e h) =
        subst (λ d'. IsRace d' (write pc a p') calls place caller) (sym e)
          (record { pool = v.pool; three = v.three; lanes = lanes_held h; callers = v.callers })
    effect-IsRace lt (updates i f loc e h h') =
        subst (λ d'. IsRace d' (write pc a p') calls place caller) (sym e)
          (record {
            pool = IsPool-update d.pool place v.pool i f loc.id;
            three = v.three;
            lanes = lanes_held (h' ∙ sym h);
            callers = λ c.
                IsCall-kept d.pool (set_task d i f).pool place place caller caller c (omega arith)
                  (λ j lt e. e) (λ j lt e h. h)
                  (λ j desc lt e h. Carries-update d.pool j i f desc loc) (calls c) (v.callers c);
          })
    effect-IsRace lt (loads f same e h) =
        subst (λ d'. IsRace d' (write pc a p') calls place caller) (sym e)
          (accel-IsRace f lt (
            IsLane-holds h (record {
              queue = rw ((same (accel_at d a)).0) (v.lanes a).queue;
              active = (same (accel_at d a)).1 ∙ (v.lanes a).active;
              held = (v.lanes a).held;
            })))
    effect-IsRace lt (unlinks i e h h') =
        subst (λ d'. IsRace d' (write pc a p') calls place caller) (sym e)
          (accel-IsRace (λ x. record x { active_tasks = list_del i x.active_tasks }) lt
            (record {
              queue = (v.lanes a).queue;
              active =
                  ap (list_del i) ((v.lanes a).active ∙ ap to_list h)
                  ∙ ground arith
                  ∙ ap to_list (sym h');
              held = rw h' tt;
            }))

  -- The head of the queue becomes active.
  take-IsRace :
      (a : ℕ) (queue : List ℕ)
      → a < num_accelerators
      → holds (pc a) ≡ none
      → (accel_at d a).task_queue ≡ queue
      → IsRace
          (take_head d a queue).0
          (write pc a (take_head d a queue).1)
          calls
          (place_of_head place a queue)
          caller
  unfolding take_head
  take-IsRace a [] lt none_held e = record {
    pool = v.pool;
    three = v.three;
    lanes = lanes_held a testing (sym none_held);
    callers = v.callers;
  }
  take-IsRace a (i ∷ rest) lt none_held e = record {
    pool = IsPool-write d.pool place v.pool i (working a) (issued i a owned.0);
    three = length-modify d.accelerators a _ ∙ v.three;
    lanes =
        lanes_modify (write place i (working a)) d.accelerators pc (write pc a (starting i)) a
          (λ x. record x { task_queue = rest; active_tasks = x.active_tasks ++ i ∷ [] })
          (omega (arith, v.three))
          (rw (write_self pc a (starting i)) (record {
            queue = Owned-write place (queued a) i (working a) rest owned.1 owned.2;
            active = ap (λ js. js ++ i ∷ []) ((v.lanes a).active ∙ ap to_list none_held);
            held = write_self place i (working a);
          }))
          (λ b ne. write_ne pc a b (starting i) ne)
          (λ b ne.
            IsLane-write i (working a) (λ e'. ne (cc (owned.0, e'))) (λ e'. cc (owned.0, e'))
              (v.lanes b));
    callers = λ c.
        IsCall-kept d.pool d.pool place (write place i (working a)) caller caller c (omega arith)
          (λ j lt e. e)
          (λ j lt e' h. write_ne place i j (working a) (λ ij. cc (ij, owned.0, h)) ∙ h)
          (λ j desc lt e h carries. carries) (calls c) (v.callers c);
  }
    where
      owned : Owned place (queued a) (i ∷ rest)
      owned = subst (Owned place (queued a)) e (v.lanes a).queue

  place_of_work-still : (a : ℕ) (p : Pc) → p ≢ locking → place_of_work place d a p ≡ place
  place_of_work-still a locking ne = absurd (ne refl)
  place_of_work-still a _ ne = refl

  pub work-IsRace :
      (clock : Clock) (e : Moment) (a : ℕ)
      → a < num_accelerators
      → IsRace
          (worker_step clock e d a (pc a)).0
          (write pc a (worker_step clock e d a (pc a)).1)
          calls
          (place_of_work place d a (pc a))
          caller
  unfolding worker_step
  work-IsRace clock e a lt = elim (locking_cases (pc a)) [
    | inl at ↦ rw at (take-IsRace a (accel_at d a).task_queue lt (ap holds at) refl)
    | inr ne ↦
        rw (place_of_work-still a (pc a) ne)
          (effect-IsRace a _ lt (worker_step-Effect clock e d a (pc a) ne))
  ]
