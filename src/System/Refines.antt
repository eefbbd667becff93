-- ===== src/System/Refines.antt =====
-- The driver refines its specification: each of its steps is a step of the queues, or none.
use cortex_forge_driver.Base.{
  ℕ, zero, suc, ◌+◌, ◌<◌, ◌≡◌, ◌⊎◌, inl, inr, List, [], ◌∷◌, ◌++◌, refl, arith, ap, ap₂, sym, ◌∙◌,
  subst, length, write, write_self, write_ne, write_same, ℕ_discrete,
}
use cortex_forge_driver.Accel.{num_accelerators}
use cortex_forge_driver.Kernel.{UserMemory, Clock}
use cortex_forge_driver.Uapi.Ioctl.{IoctlAbi}
use cortex_forge_driver.Device.{Dev, accel_at, task_of}
use cortex_forge_driver.Worker.{Pc, locking, Moment, worker_step}
use cortex_forge_driver.Worker.Frame.{next_task_id-worker_step}
use cortex_forge_driver.Chardev.Frame.{cancel_in, Effect, unchanged, cancels, accepts, ioctl-Effect}
use cortex_forge_driver.Chardev.Submit.{accept-task, accept}
use cortex_forge_driver.System.{after_work, System, Reach, Step, call, work, taken, first_of_queue}
use cortex_forge_driver.System.Targets.{accel_type-worker_step}
use cortex_forge_driver.System.Progress.{fixed-Effect}
use cortex_forge_driver.System.Spec.{FifoStep, fifo_of, targets_from, waiting_for, queue_waiting}
use cortex_forge_driver.Task.Slots.{IsInOrder}
use cortex_forge_driver.System.Steps.{Reach-IsSound}
use cortex_forge_driver.Chardev.{cortex_forge_ioctl}
use cortex_forge_driver.Task.{Task}

targets-same :
    (d d' : Dev) (k lo : ℕ)
    → ((j : ℕ) → j < k + lo → (task_of d' j).accel_type ≡ (task_of d j).accel_type)
    → targets_from d' lo k ≡ targets_from d lo k
targets-same d d' zero lo h = refl
targets-same d d' (suc k) lo h =
    ap₂ (λ x xs. x ∷ xs) (h lo (omega arith))
      (targets-same d d' k (suc lo) (λ j lt. h j (omega (arith, lt))))

targets-snoc :
    (d : Dev) (k lo n : ℕ)
    → n ≡ k + lo
    → targets_from d lo (suc k) ≡ targets_from d lo k ++ (task_of d n).accel_type ∷ []
targets-snoc d zero lo n q = ap (λ j. (task_of d j).accel_type ∷ []) (omega arith)
targets-snoc d (suc k) lo n q =
    ap (λ xs. (task_of d lo).accel_type ∷ xs) (targets-snoc d k (suc lo) n (omega (arith, q)))

-- A call.
Effect-targets :
    {now : ℕ} {d d' : Dev}
    → Effect now d d'
    → IsInOrder d.pool
    → (targets_from d' 0 d'.pool.next_task_id ≡ targets_from d 0 d.pool.next_task_id)
      ⊎ ((a : ℕ) × (a < num_accelerators)
          × (targets_from d' 0 d'.pool.next_task_id
              ≡ targets_from d 0 d.pool.next_task_id ++ a ∷ []))
Effect-targets (unchanged e) v = inl (rw e refl)
Effect-targets {now} {d} (cancels id e) v = inl (
    subst (λ (x : Dev). targets_from x 0 x.pool.next_task_id ≡ targets_from d 0 d.pool.next_task_id)
      (sym e)
      (targets-same d (cancel_in d id) d.pool.next_task_id 0 (λ j lt.
        (fixed-Effect {now = now} {d = d} {d' = cancel_in d id} j (cancels id refl)
          (omega (arith, lt))).1)))
Effect-targets {now} {d} {d'} (accepts desc acc h e) v = inr (
  desc.accel_type,
  acc.accel,
  subst
      (λ (x : Dev).
        targets_from x 0 x.pool.next_task_id
        ≡ targets_from d 0 d.pool.next_task_id ++ desc.accel_type ∷ [])
      (sym e)
      (targets-snoc (accept d desc now) d.pool.next_task_id 0 d.pool.next_task_id (omega arith)
        ∙ ap₂ (λ xs a. xs ++ a ∷ [])
            (targets-same d (accept d desc now) d.pool.next_task_id 0 (λ j lt.
              (fixed-Effect {now = now} {d = d} {d' = accept d desc now} j (accepts desc acc h refl)
                (omega (arith, lt))).1))
            (ap (λ (t : Task). t.accel_type) (accept-task d desc now h v))),
)

-- What a worker's step takes: nothing, or the first of its queue.
taken-cases :
    (d : Dev) (a : ℕ) (p : Pc)
    → (taken d a p ≡ [])
      ⊎ ((i : ℕ) × (taken d a p ≡ i ∷ []) × (0 < length (accel_at d a).task_queue))
taken-cases d a locking = first (accel_at d a).task_queue
  where
    first :
        (queue : List ℕ)
        → (first_of_queue queue ≡ [])
          ⊎ ((i : ℕ) × (first_of_queue queue ≡ i ∷ []) × (0 < length queue))
    first [] = inl refl
    first (i ∷ rest) = inr (i, refl, omega arith)
taken-cases d a _ = inl refl

begun-write :
    (log : ℕ → List ℕ) (a i b : ℕ)
    → length (write log a (i ∷ log a) b) ≡ write (λ c. length (log c)) a (suc (length (log a))) b
begun-write log a i b = elim (ℕ_discrete a b) [
  | yes e ↦
      subst
        (λ k.
          length (write log a (i ∷ log a) k)
          ≡ write (λ c. length (log c)) a (suc (length (log a))) k)
        e
        (ap length (write_self log a (i ∷ log a))
          ∙ sym (write_self (λ c. length (log c)) a (suc (length (log a)))))
  | no ne ↦
      ap length (write_ne log a b (i ∷ log a) ne)
      ∙ sym (write_ne (λ c. length (log c)) a b (suc (length (log a))) ne)
]

module _ (user : UserMemory) (clock : Clock) (abi : IoctlAbi) where
  call-FifoStep :
      (s : System) (d : Dev) (now : ℕ)
      → Effect now s.dev d
      → IsInOrder s.dev.pool
      → FifoStep (fifo_of s) (fifo_of (record s { dev = d }))
  call-FifoStep s d now eff v = elim (Effect-targets eff v) [
    | inl q ↦ FifoStep.same q (λ b. refl)
    | inr (a, lt, q) ↦ FifoStep.submit a lt q (λ b. refl)
  ]

  work-targets :
      (s : System) (a : ℕ) (e : Moment)
      → (fifo_of (after_work user clock abi s a e)).targets ≡ (fifo_of s).targets
  work-targets s a e =
      let d' : Dev = (worker_step clock e s.dev a (s.pc a)).0 in
      ap (targets_from d' 0) (next_task_id-worker_step clock e s.dev a (s.pc a))
      ∙ targets-same s.dev d' s.dev.pool.next_task_id 0
          (λ j lt. accel_type-worker_step clock e s.dev a j (s.pc a))

  work-FifoStep :
      {s : System}
      → Reach user clock abi s
      → (a : ℕ) (e : Moment) → a < num_accelerators
      → FifoStep (fifo_of s) (fifo_of (after_work user clock abi s a e))
  work-FifoStep {s} r a e lt = elim (taken-cases s.dev a (s.pc a)) [
    | inl none_taken ↦ FifoStep.same (work-targets s a e) (λ b.
        ap (λ more. length (write s.started a (more ++ s.started a) b)) none_taken
        ∙ ap length (write_same s.started a b))
    | inr (i, one, waits) ↦
        FifoStep.begin a lt
          (subst (λ queue. 0 < length queue) (queue_waiting user clock abi r a) waits)
          (work-targets s a e)
          (λ b.
            ap (λ more. length (write s.started a (more ++ s.started a) b)) one
            ∙ begun-write s.started a i b)
  ]

  -- The driver is a first-in, first-out queue for each accelerator: in every reachable state the queue
  -- of an accelerator holds what the specification says is waiting for it, the tasks submitted to it, in
  -- the order of submission, without those it has begun; and every step of a client or a worker submits
  -- one task to one accelerator, or begins the first that waits for one, or does neither.
  pub driver_refines_fifo :
      {s t : System}
      → Reach user clock abi s
      → Step user clock abi s t
      → ((a : ℕ) → (accel_at s.dev a).task_queue ≡ waiting_for (fifo_of s) a)
        × FifoStep (fifo_of s) (fifo_of t)
  driver_refines_fifo {s} r (call cmd m uarg now e) =
      let order : IsInOrder s.dev.pool = (Reach-IsSound user clock abi r).order in
      (
        queue_waiting user clock abi r,
        subst (λ (x : System). FifoStep (fifo_of s) (fifo_of x)) (sym e)
            (call-FifoStep s (cortex_forge_ioctl user clock abi s.dev cmd m uarg now).1 now
              (ioctl-Effect user clock abi s.dev cmd m uarg now order) order),
      )
  driver_refines_fifo {s} r (work a m lt e) = (
    queue_waiting user clock abi r,
    subst (λ (x : System). FifoStep (fifo_of s) (fifo_of x)) (sym e) (work-FifoStep r a m lt),
  )
