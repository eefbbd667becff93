-- ===== src/System/Spec.antt =====
-- What the driver promises: a first-in, first-out queue for each accelerator. The specification knows
-- which accelerator each task was submitted to, and how many of its tasks each accelerator has begun.
use cortex_forge_driver.Base.{
  ℕ, zero, suc, ◌<◌, ◌≡◌, ◌==◌, List, [], ◌∷◌, ◌++◌, refl, arith, ap, sym, ◌∙◌, length, write,
  if◌then◌else◌,
}
use cortex_forge_driver.Accel.{num_accelerators}
use cortex_forge_driver.Kernel.{UserMemory, Clock}
use cortex_forge_driver.Uapi.Ioctl.{IoctlAbi}
use cortex_forge_driver.Device.{Dev, accel_at, task_of}
use cortex_forge_driver.System.{System, Reach}
use cortex_forge_driver.System.Steps.{Reach-IsSound}
use cortex_forge_driver.System.Tasks.{accepted_task_placed}
use cortex_forge_driver.System.Fifo.{
  in_turn, sieve, sieve_lem, drop, drop-in_turn, has-in_turn, Between-in_turn,
}

-- `targets` in the order of submission.
pub record Fifo : Type 0 where
  pub targets : List ℕ
  pub begun : ℕ → ℕ

-- The tasks of an accelerator, of those from number `lo` on.
abbrev pub tasks_of : ℕ → ℕ → List ℕ → List ℕ
tasks_of a lo [] = []
tasks_of a lo (t ∷ ts) = let rest = tasks_of a (suc lo) ts in if a == t then lo ∷ rest else rest

-- The tasks of an accelerator that wait, the first first.
abbrev pub waiting_for : Fifo → ℕ → List ℕ
waiting_for x a = drop (x.begun a) (tasks_of a 0 x.targets)

pub data FifoStep (x y : Fifo) : Type 0 where
  same : y.targets ≡ x.targets → ((b : ℕ) → y.begun b ≡ x.begun b) → FifoStep x y
  submit :
      (a : ℕ)
      → a < num_accelerators
      → y.targets ≡ x.targets ++ a ∷ []
      → ((b : ℕ) → y.begun b ≡ x.begun b)
      → FifoStep x y
  begin :
      (a : ℕ)
      → a < num_accelerators
      → 0 < length (waiting_for x a)
      → y.targets ≡ x.targets
      → ((b : ℕ) → y.begun b ≡ write x.begun a (suc (x.begun a)) b)
      → FifoStep x y

-- The targets of `k` tasks from number `lo` on.
abbrev pub targets_from : Dev → ℕ → ℕ → List ℕ
targets_from d lo zero = []
targets_from d lo (suc k) = (task_of d lo).accel_type ∷ targets_from d (suc lo) k

-- The driver's state, seen through the specification.
abbrev pub fifo_of : System → Fifo
fifo_of s = record {
  targets = targets_from s.dev 0 s.dev.pool.next_task_id;
  begun = λ a. length (s.started a);
}

tasks_of-sieve :
    (d : Dev) (a k lo : ℕ)
    → tasks_of a lo (targets_from d lo k) ≡ sieve (λ i. a == (task_of d i).accel_type) lo k
tasks_of-sieve d a zero lo = refl
tasks_of-sieve d a (suc k) lo =
    ap (λ rest. if a == (task_of d lo).accel_type then lo ∷ rest else rest)
      (tasks_of-sieve d a k (suc lo))

module _ (user : UserMemory) (clock : Clock) (abi : IoctlAbi) where
  -- What was begun and what waits are the tasks of an accelerator, in the order of submission.
  pub in_turn_lem :
      {s : System}
      → Reach user clock abi s
      → (a : ℕ)
      → in_turn (s.started a) (accel_at s.dev a).task_queue ≡ tasks_of a 0 (fifo_of s).targets
  in_turn_lem {s} r a =
      let lane = (Reach-IsSound user clock abi r).lanes a in
      sieve_lem (λ i. a == (task_of s.dev i).accel_type) s.dev.pool.next_task_id 0
        s.dev.pool.next_task_id (in_turn (s.started a) (accel_at s.dev a).task_queue) (omega arith)
        (Between-in_turn (s.started a) (accel_at s.dev a).task_queue s.dev.pool.next_task_id
          lane.falling lane.queue)
        (λ j le lt.
          has-in_turn j (s.started a) (accel_at s.dev a).task_queue
          ∙ (accepted_task_placed user clock abi r j a lt).1)
      ∙ sym (tasks_of-sieve s.dev a s.dev.pool.next_task_id 0)

  -- The queue is what waits.
  pub queue_waiting :
      {s : System}
      → Reach user clock abi s
      → (a : ℕ) → (accel_at s.dev a).task_queue ≡ waiting_for (fifo_of s) a
  queue_waiting {s} r a =
      sym (drop-in_turn (s.started a) (accel_at s.dev a).task_queue)
      ∙ ap (drop (length (s.started a))) (in_turn_lem r a)
