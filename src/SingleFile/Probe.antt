-- ===== src/SingleFile/Probe.antt =====
-- cortex_forge_probe, _remove, _init and _exit of src/cortex_forge_main.c. A call of kthread_stop is
-- noted with the pointer that it is passed.
use cortex_forge_driver.Base.{ℕ, List, [], Bool, true, false, Option, none, some, map}
use cortex_forge_driver.Errno.{Errno, Ret, ok, fail, enomem}
use cortex_forge_driver.Accel.{Accel, Thread}
use cortex_forge_driver.Device.{Dev, zero_dev}
use cortex_forge_driver.Probe.{Answer, value, error, Registered, unregistered, resources, Module}
use cortex_forge_driver.SingleFile.Setup.{setup}
use cortex_forge_driver.SingleFile.Start.{stop_loop, start_workers}

-- The answers of one probe, in the order of its calls. device_create is asked with the pointer to the
-- class that the device structure holds.
pub record FileAnswers : Type 0 where
  pub kzalloc : Bool
  pub ioremap : Answer
  pub clk_bulk : Answer
  pub reset : Answer
  pub irq : Answer
  pub kthread_run : ℕ → Thread
  pub chrdev_region : Option Errno
  pub cdev_add : Option Errno
  pub device_create : Option ℕ → Answer

-- `class` is NULL as long as it is `none`.
pub record FileBound : Type 0 where
  pub dev : Dev
  pub class : Option ℕ
  pub registered : Registered
  pub stops : List Thread

-- At err_stop_workers, with `ret` set.
abbrev pub err_stop_workers : Errno → FileBound → Ret × FileBound
err_stop_workers e s =
    let (as', stops) = stop_loop s.dev.accelerators in
    (fail e, record s { dev = record s.dev { accelerators = as' }; stops = stops })

abbrev pub create_node : Answer → FileBound → Ret × FileBound
create_node (value n) s = (ok, record s { registered = record s.registered { node = true } })
create_node (error e) s =
    err_stop_workers e
      (record s { registered = record s.registered { region = false; cdev = false } })

abbrev pub add_cdev : Option Errno → (Option ℕ → Answer) → FileBound → Ret × FileBound
add_cdev none device_create s =
    create_node (device_create s.class)
      (record s { registered = record s.registered { cdev = true } })
add_cdev (some e) device_create s =
    err_stop_workers e (record s { registered = record s.registered { region = false } })

abbrev pub alloc_region :
    Option Errno → Option Errno → (Option ℕ → Answer) → FileBound → Ret × FileBound
alloc_region none cdev_add device_create s =
    add_cdev cdev_add device_create
      (record s { registered = record s.registered { region = true } })
alloc_region (some e) cdev_add device_create s = err_stop_workers e s

-- What follows the loop that starts the workers.
abbrev pub workers_started :
    FileAnswers → Ret × List Accel × List Thread → FileBound → Ret × FileBound
workers_started k (ok, as', stops) s =
    alloc_region k.chrdev_region k.cdev_add k.device_create
      (record s { dev = record s.dev { accelerators = as' } })
workers_started k (fail e, as', stops) s =
    (fail e, record s { dev = record s.dev { accelerators = as' }; stops = stops })

abbrev pub hardware_found : FileAnswers → Ret → FileBound → Ret × FileBound
hardware_found k (fail e) s = (fail e, s)
hardware_found k ok s = workers_started k (start_workers k.kthread_run s.dev.accelerators) s

abbrev pub with_memory : Bool → Ret × FileBound → Ret × Option FileBound
with_memory false r = (fail enomem, none)
with_memory true (ret, s) = (ret, some s)

-- The structure as it is before the probe asks for hardware.
abbrev pub fresh : FileBound
fresh = record { dev = setup zero_dev; class = none; registered = unregistered; stops = [] }

unfoldable pub cortex_forge_probe : FileAnswers → Ret × Option FileBound
unfolding setup start_workers
cortex_forge_probe k =
    with_memory k.kzalloc (hardware_found k (resources k.ioremap k.clk_bulk k.reset k.irq) fresh)

abbrev pub flag_cleared : Accel → Accel
flag_cleared a = record a { running = false }

unfoldable pub cortex_forge_remove : FileBound → FileBound
cortex_forge_remove s =
    let cleared : List Accel = map flag_cleared s.dev.accelerators in
    record s {
      dev = record s.dev { accelerators = cleared };
      registered = unregistered;
      stops = map (λ (a : Accel). a.worker_thread) s.dev.accelerators;
    }

-- From what class_register and platform_driver_register return.
unfoldable pub cortex_forge_init : Option Errno → Option Errno → Module → Ret × Module
cortex_forge_init (some e) driver m = (fail e, m)
cortex_forge_init none (some e) m = (fail e, record m { class = false })
cortex_forge_init none none m = (ok, record m { class = true; driver = true })

unfoldable pub cortex_forge_exit : Module → Module
cortex_forge_exit m = record m { driver = false; class = false }
