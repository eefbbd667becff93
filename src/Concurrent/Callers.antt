-- ===== src/Concurrent/Callers.antt =====
-- The moves of the callers keep the invariant.
use cortex_forge_driver.Base.{
  List, ℕ, suc, ◌<◌, ◌≡◌, ◌≢◌, ◌∙◌, refl, arith, sym, subst, write, write_self, write_ne,
  ℕ_discrete, modify, get_or, length, length-modify, get_or-modify_self, get_or-modify_ne, ap,
}
use cortex_forge_driver.Uapi.{TaskDesc}
use cortex_forge_driver.Task.{Task, Pool, max_tasks, update_task}
use cortex_forge_driver.Task.Slots.{allocated, fresh_task}
use cortex_forge_driver.Accel.{Accel, zero_accel, num_accelerators}
use cortex_forge_driver.Device.{Dev, accel_at, set_task, set_accel, enqueue}
use cortex_forge_driver.Chardev.{with_pool}
use cortex_forge_driver.Worker.{Pc}
use cortex_forge_driver.Concurrent.{Call, filling, answering, Place, calling, queued, working}
use cortex_forge_driver.Concurrent.Owned.{Owned-Absent, Owned-snoc, Held-write}
use cortex_forge_driver.Concurrent.Sound.{IsLane, IsLane-write, IsMine, IsCall, IsCall-kept, IsRace}
use cortex_forge_driver.Concurrent.Slots.{
  Carries-update, IsPool-update, IsPool-write, IsPool-allocated, Carries-other,
}
use cortex_forge_driver.Worker.Effect.{IsLocal}

-- Caller `c` moves to `k`, and what the others ask for is kept.
pub callers_write :
    (p : Pool) (place : ℕ → Place) (caller : ℕ → ℕ) (calls : ℕ → Call) (c : ℕ) (k : Call)
    → IsCall p place caller c k
    → ((c' : ℕ) → c ≢ c' → IsCall p place caller c' (calls c'))
    → (c' : ℕ) → IsCall p place caller c' (write calls c k c')
callers_write p place caller calls c k v others c' = elim (ℕ_discrete c c') [
  | yes e ↦
      subst (λ b. IsCall p place caller b (write calls c k b)) e
        (subst (IsCall p place caller c) (sym (write_self calls c k)) v)
  | no ne ↦ subst (IsCall p place caller c') (sym (write_ne calls c c' k ne)) (others c' ne)
]

-- One accelerator changes.
pub lanes_modify :
    (place : ℕ → Place) (xs : List Accel) (pc pc' : ℕ → Pc) (a : ℕ) (f : Accel → Accel)
    → a < length xs
    → IsLane place a (f (get_or xs a zero_accel)) (pc' a)
    → ((b : ℕ) → a ≢ b → pc' b ≡ pc b)
    → ((b : ℕ) → a ≢ b → IsLane place b (get_or xs b zero_accel) (pc b))
    → (b : ℕ) → IsLane place b (get_or (modify xs a f) b zero_accel) (pc' b)
lanes_modify place xs pc pc' a f lt lane same others b = elim (ℕ_discrete a b) [
  | yes e ↦
      subst (λ b. IsLane place b (get_or (modify xs a f) b zero_accel) (pc' b)) e
        (rw (get_or-modify_self xs a f zero_accel lt) lane)
  | no ne ↦ rw (get_or-modify_ne xs a b f zero_accel ne, same b ne) (others b ne)
]

module _ (d : Dev) (pc : ℕ → Pc) (calls : ℕ → Call) (place : ℕ → Place) (caller : ℕ → ℕ)
    (v : IsRace d pc calls place caller) (c : ℕ) where
  -- A move that touches nothing shared.
  pub quiet-IsRace :
      (k : Call) → IsCall d.pool place caller c k → IsRace d pc (write calls c k) place caller
  quiet-IsRace k ok = record {
    pool = v.pool;
    three = v.three;
    lanes = v.lanes;
    callers = callers_write d.pool place caller calls c k ok (λ c' ne. v.callers c');
  }

  -- A write to the slot that the caller has got.
  pub own-IsRace :
      (i : ℕ) (desc : TaskDesc) (f : Task → Task) (k : Call)
      → ((t : Task) → (f t).id ≡ t.id)
      → IsMine d.pool place caller c i desc
      → IsCall (update_task d.pool i f) place caller c k
      → IsRace (set_task d i f) pc (write calls c k) place caller
  own-IsRace i desc f k id mine ok = record {
    pool = IsPool-update d.pool place v.pool i f id;
    three = v.three;
    lanes = v.lanes;
    callers = callers_write (update_task d.pool i f) place caller calls c k ok (λ c' ne.
        IsCall-kept d.pool (update_task d.pool i f) place place caller caller c' (omega arith)
          (λ j lt e. e) (λ j lt e h. h)
          (λ j desc' lt e h.
            Carries-other d.pool j i f desc' (λ ij. ne (sym mine.mine ∙ ap caller ij ∙ e)))
          (calls c') (v.callers c'));
  }

  -- A write of a cancellation, to any slot.
  pub local-IsRace :
      (i : ℕ) (f : Task → Task) (k : Call)
      → IsLocal f
      → IsCall (update_task d.pool i f) place caller c k
      → IsRace (set_task d i f) pc (write calls c k) place caller
  local-IsRace i f k loc ok = record {
    pool = IsPool-update d.pool place v.pool i f loc.id;
    three = v.three;
    lanes = v.lanes;
    callers = callers_write (update_task d.pool i f) place caller calls c k ok (λ c' ne.
        IsCall-kept d.pool (update_task d.pool i f) place place caller caller c' (omega arith)
          (λ j lt e. e) (λ j lt e h. h) (λ j desc lt e h. Carries-update d.pool j i f desc loc)
          (calls c') (v.callers c'));
  }

  -- list_add_tail of the slot.
  pub add-IsRace :
      (i : ℕ) (desc : TaskDesc)
      → IsMine d.pool place caller c i desc
      → IsRace
          (set_accel d desc.accel_type (enqueue i))
          pc
          (write calls c (answering i desc))
          (write place i (queued desc.accel_type))
          caller
  add-IsRace i desc mine = record {
    pool = IsPool-write d.pool place v.pool i (queued desc.accel_type) mine.issued;
    three = length-modify d.accelerators desc.accel_type (enqueue i) ∙ v.three;
    lanes =
        lanes_modify (write place i (queued desc.accel_type)) d.accelerators pc pc desc.accel_type
          (enqueue i) (omega (arith, v.three, mine.accel))
          (record {
            queue =
                Owned-snoc place (queued desc.accel_type) i (accel_at d desc.accel_type).task_queue
                  (Owned-Absent place (queued desc.accel_type) i _ (λ e. cc (mine.here, e))
                    lane.queue)
                  lane.queue;
            active = lane.active;
            held = Held-write place _ i _ _ (λ e. cc (mine.here, e)) lane.held;
          })
          (λ b ne. refl)
          (λ b ne.
            IsLane-write i (queued desc.accel_type) (λ e. cc (mine.here, e))
              (λ e. cc (mine.here, e)) (v.lanes b));
    callers =
        callers_write d.pool (write place i (queued desc.accel_type)) caller calls c
          (answering i desc) (mine.issued, mine.mine)
          (λ c' ne.
            IsCall-kept d.pool d.pool place (write place i (queued desc.accel_type)) caller caller
              c' (omega arith) (λ j lt e. e)
              (λ j lt e h. write_ne place i j _ (λ ij. ne (sym mine.mine ∙ ap caller ij ∙ e)) ∙ h)
              (λ j desc' lt e h carries. carries) (calls c') (v.callers c'));
  }
    where
      lane : IsLane place desc.accel_type (accel_at d desc.accel_type) (pc desc.accel_type)
      lane = v.lanes desc.accel_type

  -- task_alloc of the next slot.
  pub got-IsRace :
      (desc : TaskDesc)
      → desc.accel_type < num_accelerators
      → d.pool.next_task_id < max_tasks
      → IsRace
          (with_pool d (allocated d.pool))
          pc
          (write calls c (filling d.pool.next_task_id desc))
          (write place d.pool.next_task_id calling)
          (write caller d.pool.next_task_id c)
  got-IsRace desc lt h = record {
    pool = IsPool-allocated d.pool place v.pool h;
    three = v.three;
    lanes = λ b. IsLane-write d.pool.next_task_id calling not_queued not_working (v.lanes b);
    callers =
        callers_write (allocated d.pool) (write place d.pool.next_task_id calling)
          (write caller d.pool.next_task_id c) calls c (filling d.pool.next_task_id desc)
          (record {
            issued = omega arith;
            mine = write_self caller d.pool.next_task_id c;
            here = write_self place d.pool.next_task_id calling;
            accel = lt;
          })
          (λ c' ne.
            IsCall-kept d.pool (allocated d.pool) place (write place d.pool.next_task_id calling)
              caller (write caller d.pool.next_task_id c) c' (omega arith)
              (λ j jlt e. write_ne caller d.pool.next_task_id j c (omega arith) ∙ e)
              (λ j jlt e e'. write_ne place d.pool.next_task_id j calling (omega arith) ∙ e')
              (λ j desc' jlt e e'.
                Carries-other d.pool j d.pool.next_task_id
                  (λ _. fresh_task (suc d.pool.next_task_id)) desc' (omega arith))
              (calls c') (v.callers c'));
  }
    where
      not_queued : {a : ℕ} → place d.pool.next_task_id ≢ queued a
      not_queued e = cc (v.pool.fresh d.pool.next_task_id (omega arith), e)

      not_working : {a : ℕ} → place d.pool.next_task_id ≢ working a
      not_working e = cc (v.pool.fresh d.pool.next_task_id (omega arith), e)
