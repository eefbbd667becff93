-- ===== src/System.antt =====
-- The driver at work: any number of clients make ioctl calls, and the three workers take their steps,
-- in any order. `started` is a history that the program does not keep: the slots that each worker has
-- taken from its queue, the latest first.
pub mod Order
pub mod Sound
pub mod Steps
pub mod Ids
pub mod Queues
pub mod Placement
pub mod Targets
pub mod Tasks
pub mod Ended
pub mod Over
pub mod Waiting
pub mod States
pub mod Fixed
pub mod Alive
pub mod Rank
pub mod Ahead
pub mod Timed
pub mod Progress
pub mod Liveness
pub mod Ends
pub mod Fifo
pub mod Spec
pub mod Refines
pub mod Stamps
pub mod Stamped
pub mod Usec
pub mod Reported
pub mod Info
use cortex_forge_driver.Base.{ℕ, ◌<◌, List, [], ◌∷◌, ◌++◌, write, ◌≡◌}
use cortex_forge_driver.Uapi.Ioctl.{IoctlAbi}
use cortex_forge_driver.Kernel.{UserMemory, Clock}
use cortex_forge_driver.Accel.{num_accelerators}
use cortex_forge_driver.Device.{Dev, accel_at, zero_dev, init_device}
use cortex_forge_driver.Chardev.{cortex_forge_ioctl}
use cortex_forge_driver.Worker.{Pc, testing, locking, Moment, worker_step}

pub record System : Type 0 where
  pub dev : Dev
  pub pc : ℕ → Pc
  pub started : ℕ → List ℕ

-- After a probe that succeeds.
abbrev pub boot : System
boot = record { dev = init_device zero_dev; pc = λ _. testing; started = λ _. [] }

abbrev pub first_of_queue : List ℕ → List ℕ
first_of_queue [] = []
first_of_queue (i ∷ rest) = i ∷ []

-- What a step of the worker at `p` takes from the queue.
abbrev pub taken : Dev → ℕ → Pc → List ℕ
taken d a locking = first_of_queue (accel_at d a).task_queue
taken d a _ = []

module _ (user : UserMemory) (clock : Clock) (abi : IoctlAbi) where
  open user use {Mem}

  abbrev pub after_call : System → ℕ → Mem → ℕ → ℕ → System
  after_call s cmd m uarg now = record s {
    dev = (cortex_forge_ioctl user clock abi s.dev cmd m uarg now).1;
  }

  abbrev pub after_work : System → ℕ → Moment → System
  after_work s a e =
      let (d, p) = worker_step clock e s.dev a (s.pc a) in
      record {
        dev = d;
        pc = write s.pc a p;
        started = write s.started a (taken s.dev a (s.pc a) ++ s.started a);
      }

  pub data Step (s t : System) : Type 0 where
    call : (cmd : ℕ) (m : Mem) (uarg now : ℕ) → t ≡ after_call s cmd m uarg now → Step s t
    work : (a : ℕ) (e : Moment) → a < num_accelerators → t ≡ after_work s a e → Step s t

  pub data Reach : System → Type 0 where
    start : Reach boot
    later : {s t : System} → Reach s → Step s t → Reach t
