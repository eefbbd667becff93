-- ===== src/Scenario.antt =====
-- A concrete user memory, clock and C library, a descriptor, and the devices that a number of its
-- submissions leave: what the theorems are instantiated with in the modules below.
pub mod Driver
pub mod Life
pub mod Client
pub mod Machine
pub mod Workers
pub mod Turns
pub mod OneFile
pub mod Racing
use cortex_forge_driver.Base.{
  sym, ℕ, zero, suc, List, [], ◌∷◌, ◌≡◌, Bool, true, false, Option, none, some, write, write_self,
  arith, ap, refl, ◌*◌, ◌/◌, ◌∙◌,
}
use cortex_forge_driver.Uapi.{TaskDesc, TaskStatus, AccelInfo, ProfileMetrics}
use cortex_forge_driver.Uapi.Ioctl.{linux_abi}
use cortex_forge_driver.Uapi.Ioctl
use cortex_forge_driver.Errno.{ok}
use cortex_forge_driver.Kernel.{
  Struct, Val, task_desc, task_status, accel_info, profile_metrics, u32, UserMemory, Clock,
}

-- What an address of the memory holds; address 0 faults.
pub data Cell : Type 0 where
  blank : Cell
  desc_cell : TaskDesc → Cell
  status_cell : TaskStatus → Cell
  info_cell : AccelInfo → Cell
  metrics_cell : ProfileMetrics → Cell
  word_cell : ℕ → Cell

abbrev pub store_cell : (s : Struct) → Val s → Cell
store_cell task_desc v = desc_cell v
store_cell task_status v = status_cell v
store_cell accel_info v = info_cell v
store_cell profile_metrics v = metrics_cell v
store_cell u32 v = word_cell v

abbrev pub load_cell : (s : Struct) → Cell → Option (Val s)
load_cell task_desc (desc_cell v) = some v
load_cell task_status (status_cell v) = some v
load_cell accel_info (info_cell v) = some v
load_cell profile_metrics (metrics_cell v) = some v
load_cell u32 (word_cell v) = some v
load_cell _ _ = none

abbrev pub read_user : (s : Struct) → (ℕ → Cell) → ℕ → Option (Val s)
read_user s m zero = none
read_user s m (suc a) = load_cell s (m (suc a))

abbrev pub write_user : (s : Struct) → (ℕ → Cell) → ℕ → Val s → Bool × (ℕ → Cell)
write_user s m zero v = (true, m)
write_user s m (suc a) v = (false, write m (suc a) (store_cell s v))

load-store : (s : Struct) (v : Val s) → load_cell s (store_cell s v) ≡ some v
load-store task_desc v = refl
load-store task_status v = refl
load-store accel_info v = refl
load-store profile_metrics v = refl
load-store u32 v = refl

pub user_read_back :
    (s : Struct) (m m' : ℕ → Cell) (a : ℕ) (v : Val s)
    → write_user s m a v ≡ (false, m')
    → read_user s m' a ≡ some v
user_read_back s m m' zero v e = cc
user_read_back s m m' (suc a) v e =
    ap (λ (r : Bool × (ℕ → Cell)). load_cell s (r.1 (suc a))) (sym e)
    ∙ ap (load_cell s) (write_self m (suc a) (store_cell s v))
    ∙ load-store s v

abbrev pub user : UserMemory
user = record {
  Mem = ℕ → Cell;
  copy_from_user = read_user;
  copy_to_user = write_user;
  read_back = user_read_back;
}

abbrev pub clock : Clock
clock = record { hz = 250; msecs_to_jiffies = λ ms. ms / 4; hz_pos = omega arith }

-- A task of 4096 bytes for the second accelerator, for at most 20 milliseconds.
abbrev pub desc : TaskDesc
desc = record {
  task_id = 0;
  accel_type = 1;
  priority = 5;
  input_size = 4096;
  output_size = 4096;
  input_addr = 0x1000;
  output_addr = 0x2000;
  timeout_ms = 20;
  flags = 0;
  reserved = 0 ∷ 0 ∷ 0 ∷ 0 ∷ [];
}

-- A status that asks for a task.
abbrev pub asking : ℕ → TaskStatus
asking id = record {
  task_id = id;
  status = 0;
  exec_usec = 0;
  error_code = ok;
  reserved = 0 ∷ 0 ∷ 0 ∷ [];
}

-- The descriptor at 1, a status that asks for task 1 at 2, one for task 7 at 3, and the number 1 at 4.
abbrev pub image : ℕ → Cell
image (suc zero) = desc_cell desc
image (suc (suc zero)) = status_cell (asking 1)
image (suc (suc (suc zero))) = status_cell (asking 7)
image (suc (suc (suc (suc zero)))) = word_cell 1
image _ = blank
