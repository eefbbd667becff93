-- ===== src/SingleFile/Setup.antt =====
-- What cortex_forge_probe of src/cortex_forge_main.c sets up before it asks for hardware, with its
-- accel_init.
use cortex_forge_driver.Base.{ℕ, zero, suc, ◌*◌, ◌++◌, ◌≡◌, List, [], ◌∷◌, ap, refl, true, false}
use cortex_forge_driver.CString.{strncpy}
use cortex_forge_driver.Task.{free, max_tasks, init_from, task_pool_init}
use cortex_forge_driver.Accel.{Accel}
use cortex_forge_driver.Accel
use cortex_forge_driver.Device.{Dev, set_accel, set_task, nvdla0, nvdla1, pva0, init_device}

unfoldable pub accel_init : Accel → ℕ → List ℕ → Accel
unfolding strncpy
accel_init accel type name = record accel {
  type = type;
  name = strncpy 15 name accel.name;
  freq_hz = 1000000000;
  temp_celsius = 40;
  load_percent = 0;
  fw_version = 0x00010000;
  hw_version = 0x02000000;
  mem_total = 1024 * 1024 * 1024;
  mem_free = 1024 * 1024 * 1024;
  state = 2;
  task_queue = [];
  active_tasks = [];
  running = true;
}

-- The loop over the slots at index `i`, with a number of rounds left.
unfoldable pub setup_loop : ℕ → ℕ → Dev → Dev
setup_loop zero i dev = dev
setup_loop (suc rounds) i dev =
    let dev : Dev = set_task dev i (λ t. record t { state = free; done = false }) in
    setup_loop rounds (suc i)
      (record dev { pool = record dev.pool { free_tasks = dev.pool.free_tasks ++ i ∷ [] } })

abbrev pub setup_accelerators : Dev → Dev
setup_accelerators dev =
    set_accel
      (set_accel (set_accel dev 0 (λ a. accel_init a 0 nvdla0)) 1 (λ a. accel_init a 1 nvdla1)) 2
      (λ a. accel_init a 2 pva0)

unfoldable pub setup : Dev → Dev
unfolding setup_loop accel_init
setup dev = setup_accelerators (
    setup_loop max_tasks 0
      (record dev { pool = record dev.pool { free_tasks = []; next_task_id = 0 } }))

setup_loop_lem :
    (rounds i : ℕ) (dev : Dev)
    → setup_loop rounds i dev ≡ record dev { pool = init_from rounds i dev.pool }
unfolding setup_loop init_from
setup_loop_lem zero i dev = refl
setup_loop_lem (suc rounds) i dev = setup_loop_lem rounds (suc i) _

accel_init_lem :
    (a : Accel) (type : ℕ) (name : List ℕ) → accel_init a type name ≡ Accel.accel_init a type name
unfolding accel_init Accel.accel_init
accel_init_lem a type name = refl

-- Both drivers set up the same device.
pub setup_lem : (dev : Dev) → setup dev ≡ init_device dev
unfolding setup init_device accel_init Accel.accel_init task_pool_init
setup_lem dev = ap setup_accelerators (
    setup_loop_lem max_tasks 0
      (record dev { pool = record dev.pool { free_tasks = []; next_task_id = 0 } }))
