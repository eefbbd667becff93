-- ===== src/Kernel.antt =====
-- What the driver calls and does not implement, as interfaces: the copies between kernel and user
-- memory, and the kernel's clock.
use cortex_forge_driver.Base.{ℕ, ◌≡◌, ◌<◌, Bool, false, Option, some}
use cortex_forge_driver.Uapi.{TaskDesc, TaskStatus, AccelInfo, ProfileMetrics}

-- The types that cross the user boundary.
pub data Struct : Type 0 where
  task_desc task_status accel_info profile_metrics u32 : Struct

abbrev pub Val : Struct → Type 0
Val task_desc = TaskDesc
Val task_status = TaskStatus
Val accel_info = AccelInfo
Val profile_metrics = ProfileMetrics
Val u32 = ℕ

-- copy_from_user and copy_to_user. A read that faults is `none`. A write returns whether it faulted
-- and the memory it leaves, since a faulting write may have stored a part.
pub record UserMemory : Type 1 where
  pub Mem : Type 0
  pub copy_from_user : (s : Struct) → Mem → ℕ → Option (Val s)
  pub copy_to_user : (s : Struct) → Mem → ℕ → Val s → Bool × Mem
  pub read_back :
      (s : Struct) (m m' : Mem) (a : ℕ) (v : Val s)
      → copy_to_user s m a v ≡ (false, m')
      → copy_from_user s m' a ≡ some v

-- HZ and msecs_to_jiffies.
pub record Clock : Type 0 where
  pub hz : ℕ
  pub msecs_to_jiffies : ℕ → ℕ
  pub hz_pos : 0 < hz
