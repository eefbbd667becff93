-- ===== src/Accel.antt =====
-- include/cortex_forge_accel.h and src/accel_manager.c, but for the worker thread's function, which is
-- Worker.antt. `temp_celsius` is the bit pattern of an s32; `running` is the atomic flag's truth.
pub mod Workers
pub mod Live
use cortex_forge_driver.Base.{ℕ, ◌*◌, List, [], Bool, true, false, replicate}
use cortex_forge_driver.Errno.{Errno}
use cortex_forge_driver.CString.{strncpy}
use cortex_forge_driver.Uapi.{AccelInfo}

abbrev pub num_accelerators : ℕ
num_accelerators = 3

-- A `struct task_struct *`: NULL, an ERR_PTR, or a thread.
pub data Thread : Type 0 where
  null thread : Thread
  err_ptr : Errno → Thread

-- `task_queue` and `active_tasks` are lists of task slots.
pub record Accel : Type 0 where
  pub type : ℕ
  pub name : List ℕ
  pub freq_hz : ℕ
  pub temp_celsius : ℕ
  pub load_percent : ℕ
  pub fw_version : ℕ
  pub hw_version : ℕ
  pub mem_total : ℕ
  pub mem_free : ℕ
  pub state : ℕ
  pub task_queue : List ℕ
  pub active_tasks : List ℕ
  pub worker_thread : Thread
  pub running : Bool

-- An accelerator of zero bytes.
abbrev pub zero_accel : Accel
zero_accel = record {
  type = 0;
  name = replicate 16 0;
  freq_hz = 0;
  temp_celsius = 0;
  load_percent = 0;
  fw_version = 0;
  hw_version = 0;
  mem_total = 0;
  mem_free = 0;
  state = 0;
  task_queue = [];
  active_tasks = [];
  worker_thread = null;
  running = false;
}

unfoldable pub accel_init : Accel → ℕ → List ℕ → Accel
unfolding strncpy
accel_init accel type name = record accel {
  type = type;
  name = strncpy 15 name accel.name;
  freq_hz = 1000000000;
  temp_celsius = 40;
  load_percent = 0;
  fw_version = 0x00010000;
  hw_version = 0x02000000;
  mem_total = 1024 * 1024 * 1024;
  mem_free = 1024 * 1024 * 1024;
  state = 2;
  task_queue = [];
  active_tasks = [];
  running = true;
}

unfoldable pub accel_get_info : Accel → AccelInfo → AccelInfo
accel_get_info accel info = record info {
  freq_hz = accel.freq_hz;
  temp_celsius = accel.temp_celsius;
  load_percent = accel.load_percent;
  fw_version = accel.fw_version;
  hw_version = accel.hw_version;
  mem_total = accel.mem_total;
  mem_free = accel.mem_free;
  state = accel.state;
}
