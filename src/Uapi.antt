-- ===== src/Uapi.antt =====
-- include/cortex_forge_uapi.h: the structs shared with userspace. a `reserved`
-- array is a list; the accelerator numbers and task status values are constants.
pub mod Layout
pub mod Ioctl
use cortex_forge_driver.Base.{ℕ, List}
use cortex_forge_driver.Errno.{Ret}

abbrev pub accel_count : ℕ
accel_count = 3

-- CORTEX_FORGE_TASK_*
abbrev pub task_pending : ℕ
task_pending = 0

abbrev pub task_running : ℕ
task_running = 1

abbrev pub task_complete : ℕ
task_complete = 2

abbrev pub task_failed : ℕ
task_failed = 3

abbrev pub task_cancelled : ℕ
task_cancelled = 4

pub record TaskDesc : Type 0 where
  pub task_id : ℕ
  pub accel_type : ℕ
  pub priority : ℕ
  pub input_size : ℕ
  pub output_size : ℕ
  pub input_addr : ℕ
  pub output_addr : ℕ
  pub timeout_ms : ℕ
  pub flags : ℕ
  pub reserved : List ℕ

-- `error_code` is 0 or a negative errno.
pub record TaskStatus : Type 0 where
  pub task_id : ℕ
  pub status : ℕ
  pub exec_usec : ℕ
  pub error_code : Ret
  pub reserved : List ℕ

pub record AccelInfo : Type 0 where
  pub accel_type : ℕ
  pub freq_hz : ℕ
  pub temp_celsius : ℕ
  pub load_percent : ℕ
  pub fw_version : ℕ
  pub hw_version : ℕ
  pub mem_total : ℕ
  pub mem_free : ℕ
  pub state : ℕ
  pub reserved : List ℕ

pub record ProfileMetrics : Type 0 where
  pub compute_us : ℕ
  pub memory_us : ℕ
  pub storage_us : ℕ
  pub network_us : ℕ
  pub thermal_celsius : ℕ
  pub power_mw : ℕ
  pub reserved : List ℕ
