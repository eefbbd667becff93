-- ===== src/Concurrent/Apart.antt =====
-- Calls that overlap: the slots that submissions have got and the lists.
use cortex_forge_driver.Base.{
  dec_lt, ℕ, zero, suc, ◌<◌, ◌≡◌, ◌≢◌, ◌∙◌, arith, sym, ap, List, [], ◌∷◌, Option, none, some,
  count_from, ◌-◌, subst,
}
use cortex_forge_driver.Uapi.{TaskDesc}
use cortex_forge_driver.Kernel.{UserMemory, Clock}
use cortex_forge_driver.Task.{Task, Pool, max_tasks}
use cortex_forge_driver.Accel.{num_accelerators}
use cortex_forge_driver.Device.{Dev, accel_at, task_of}
use cortex_forge_driver.System.Order.{holds, to_list}
use cortex_forge_driver.Concurrent.{
  waking, blaming, marking, scanning, Call, returned, filling, submitting, dating, adding,
  answering, Place, queued, working, unissued, Race, Reach,
}
use cortex_forge_driver.Concurrent.Owned.{
  Absent, Owned, Held, Distinct, Owned-Absent, Owned-Distinct,
}
use cortex_forge_driver.Concurrent.Sound.{IsRace, IsCall, IsMine}
use cortex_forge_driver.Concurrent.Steps.{Reach-IsRace}
use cortex_forge_driver.Worker.{Pc}

-- The slot that a call has got and not queued.
abbrev pub has : Call → Option ℕ
has (filling i desc) = some i
has (submitting i desc) = some i
has (dating i desc) = some i
has (adding i desc) = some i
has _ = none

-- No slot of the first list is on the second.
abbrev pub Disjoint : List ℕ → List ℕ → Type 0
Disjoint [] ks = Unit {0}
Disjoint (j ∷ js) ks = Absent j ks × Disjoint js ks

has-IsMine :
    (p : Pool) (place : ℕ → Place) (caller : ℕ → ℕ) (c i : ℕ) (k : Call)
    → has k ≡ some i
    → IsCall p place caller c k
    → (desc : TaskDesc) × IsMine p place caller c i desc
has-IsMine p place caller c i (returned ret) e v = cc
has-IsMine p place caller c i (filling j desc) e v =
    (desc, subst (λ n. IsMine p place caller c n desc) (cc e) v)
has-IsMine p place caller c i (submitting j desc) e v =
    (desc, subst (λ n. IsMine p place caller c n desc) (cc e) v.0)
has-IsMine p place caller c i (dating j desc) e v =
    (desc, subst (λ n. IsMine p place caller c n desc) (cc e) v.0)
has-IsMine p place caller c i (adding j desc) e v =
    (desc, subst (λ n. IsMine p place caller c n desc) (cc e) v.0)
has-IsMine p place caller c i (answering j desc) e v = cc
has-IsMine p place caller c i (scanning id j) e v = cc
has-IsMine p place caller c i (marking j) e v = cc
has-IsMine p place caller c i (blaming j) e v = cc
has-IsMine p place caller c i (waking j) e v = cc

Absent-to_list :
    (place : ℕ → Place) (x : Place) (i : ℕ) (o : Option ℕ)
    → place i ≢ x
    → Held place x o
    → Absent i (to_list o)
Absent-to_list place x i none ne h = tt
Absent-to_list place x i (some j) ne h = (λ e. ne (ap place e ∙ h), tt)

Held-Disjoint :
    (place : ℕ → Place) (x : Place) (ks : List ℕ)
    → ((i : ℕ) → place i ≡ x → Absent i ks)
    → (o : Option ℕ) → Held place x o
    → Disjoint (to_list o) ks
Held-Disjoint place x ks ab none h = tt
Held-Disjoint place x ks ab (some i) h = (ab i h, tt)

Distinct-to_list : (o : Option ℕ) → Distinct (to_list o)
Distinct-to_list none = tt
Distinct-to_list (some i) = (tt, tt)

Absent-count_from : (i k n : ℕ) → i < k → Absent i (count_from k n)
Absent-count_from i k zero lt = tt
Absent-count_from i k (suc n) lt =
    (λ e. omega (arith, e), Absent-count_from i (suc k) n (omega arith))

module _ {d : Dev} {pc : ℕ → Pc} {calls : ℕ → Call} {place : ℕ → Place} {caller : ℕ → ℕ}
    (v : IsRace d pc calls place caller) where
  -- A slot that has been handed out is not on the free list.
  issued-Absent : (i : ℕ) → place i ≢ unissued → Absent i d.pool.free_tasks
  issued-Absent i ne = elim (dec_lt i d.pool.next_task_id) [
    | yes lt ↦
        subst (Absent i) (sym v.pool.rest)
          (Absent-count_from i d.pool.next_task_id (max_tasks - d.pool.next_task_id) lt)
    | no nlt ↦ absurd (ne (v.pool.fresh i (omega arith)))
  ]

  active-Absent : (a i : ℕ) → place i ≢ working a → Absent i (accel_at d a).active_tasks
  active-Absent a i ne =
      subst (Absent i) (sym (v.lanes a).active)
        (Absent-to_list place (working a) i (holds (pc a)) ne (v.lanes a).held)

  queue-Disjoint :
      (a : ℕ) (ks : List ℕ)
      → ((i : ℕ) → place i ≡ queued a → Absent i ks)
      → (js : List ℕ) → Owned place (queued a) js
      → Disjoint js ks
  queue-Disjoint a ks ab [] o = tt
  queue-Disjoint a ks ab (j ∷ js) o = (ab j o.0, queue-Disjoint a ks ab js o.2)

  active-Disjoint :
      (a : ℕ) (ks : List ℕ)
      → ((i : ℕ) → place i ≡ working a → Absent i ks)
      → Disjoint (accel_at d a).active_tasks ks
  active-Disjoint a ks ab =
      subst (λ js. Disjoint js ks) (sym (v.lanes a).active)
        (Held-Disjoint place (working a) ks ab (holds (pc a)) (v.lanes a).held)

module _ (user : UserMemory) (clock : Clock) where
  -- In every reachable state, however the callers and the workers interleave, a slot that a submission
  -- has got and not yet queued is on no queue, on no active list and not on the free list, and no other
  -- caller has got it.
  pub call_owns_slot :
      {s : Race}
      → Reach user clock s
      → (c i : ℕ) → has (s.calls c) ≡ some i
      → ((a : ℕ)
          → Absent i (accel_at s.dev a).task_queue × Absent i (accel_at s.dev a).active_tasks)
        × Absent i s.dev.pool.free_tasks
        × ((c' : ℕ) → has (s.calls c') ≡ some i → c' ≡ c)
  call_owns_slot {s} r c i e =
      let v = Reach-IsRace user clock r in
      let (_, mine) = has-IsMine s.dev.pool s.place s.caller c i (s.calls c) e (v.callers c) in
      (
        λ a. (
          Owned-Absent s.place (queued a) i (accel_at s.dev a).task_queue (λ q. cc (mine.here, q))
              (v.lanes a).queue,
          active-Absent v a i (λ q. cc (mine.here, q)),
        ),
        issued-Absent v i (λ q. cc (mine.here, q)),
        λ c' e'.
            sym (has-IsMine s.dev.pool s.place s.caller c' i (s.calls c') e' (v.callers c')).1.mine
            ∙ mine.mine,
      )

  -- In every reachable state no slot is twice on a queue or twice on an active list; the queue of an
  -- accelerator shares no slot with the queue of another, with an active list or with the free list; and
  -- its active list shares none with the active list of another or with the free list.
  pub lists_apart :
      {s : Race}
      → Reach user clock s
      → (a : ℕ)
      → Distinct (accel_at s.dev a).task_queue
        × Distinct (accel_at s.dev a).active_tasks
        × ((b : ℕ) → a ≢ b → Disjoint (accel_at s.dev a).task_queue (accel_at s.dev b).task_queue)
        × ((b : ℕ) → Disjoint (accel_at s.dev a).task_queue (accel_at s.dev b).active_tasks)
        × Disjoint (accel_at s.dev a).task_queue s.dev.pool.free_tasks
        × ((b : ℕ)
            → a ≢ b
            → Disjoint (accel_at s.dev a).active_tasks (accel_at s.dev b).active_tasks)
        × Disjoint (accel_at s.dev a).active_tasks s.dev.pool.free_tasks
  lists_apart {s} r a =
      let v = Reach-IsRace user clock r in
      let queue = (accel_at s.dev a).task_queue in
      (
        Owned-Distinct s.place (queued a) queue (v.lanes a).queue,
        subst Distinct (sym (v.lanes a).active) (Distinct-to_list (holds (s.pc a))),
        λ b ne.
            queue-Disjoint v a (accel_at s.dev b).task_queue
              (λ i e. Owned-Absent s.place (queued b) i _ (λ q. ne (cc (e, q))) (v.lanes b).queue)
              queue (v.lanes a).queue,
        λ b.
            queue-Disjoint v a (accel_at s.dev b).active_tasks
              (λ i e. active-Absent v b i (λ q. cc (e, q))) queue (v.lanes a).queue,
        queue-Disjoint v a s.dev.pool.free_tasks (λ i e. issued-Absent v i (λ q. cc (e, q))) queue
            (v.lanes a).queue,
        λ b ne.
            active-Disjoint v a (accel_at s.dev b).active_tasks
              (λ i e. active-Absent v b i (λ q. ne (cc (e, q)))),
        active-Disjoint v a s.dev.pool.free_tasks (λ i e. issued-Absent v i (λ q. cc (e, q))),
      )

  -- In every reachable state a slot that a submission is about to queue has the id of its slot and each
  -- of the fields of the caller's descriptor, and is for one of the three accelerators, whatever other
  -- callers, cancellations and workers did since it was got.
  pub queued_as_asked :
      {s : Race}
      → Reach user clock s
      → (c i : ℕ) (desc : TaskDesc) → s.calls c ≡ adding i desc
      → let t = task_of s.dev i in
        (t.id ≡ suc i)
        × (t.accel_type ≡ desc.accel_type)
        × (t.priority ≡ desc.priority)
        × (t.input_addr ≡ desc.input_addr)
        × (t.input_size ≡ desc.input_size)
        × (t.output_addr ≡ desc.output_addr)
        × (t.output_size ≡ desc.output_size)
        × (t.timeout_ms ≡ desc.timeout_ms)
        × (desc.accel_type < num_accelerators)
  queued_as_asked {s} r c i desc e =
      let v = Reach-IsRace user clock r in
      let (mine, carries) = subst (IsCall s.dev.pool s.place s.caller c) e (v.callers c) in
      let back = sym carries in
      (
        v.pool.ids i mine.issued,
        ap (λ (t : Task). t.accel_type) back,
        ap (λ (t : Task). t.priority) back,
        ap (λ (t : Task). t.input_addr) back,
        ap (λ (t : Task). t.input_size) back,
        ap (λ (t : Task). t.output_addr) back,
        ap (λ (t : Task). t.output_size) back,
        ap (λ (t : Task). t.timeout_ms) back,
        mine.accel,
      )
