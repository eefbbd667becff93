-- ===== src/Probe.antt =====
-- src/main.c: what the driver registers with the kernel when a device is bound and unbound and when
-- the module is loaded and unloaded. What the kernel answers to each call is an argument. The memory,
-- the registers, the clocks and the reset line are devm resources, which the kernel takes back.
pub mod Balance
use cortex_forge_driver.Base.{ℕ, List, Bool, true, false, Option, none, some}
use cortex_forge_driver.Errno.{Errno, Ret, ok, fail, enomem}
use cortex_forge_driver.Accel.{Accel, Thread, num_accelerators}
use cortex_forge_driver.Accel.Workers.{accel_start_workers, accel_stop_workers}
use cortex_forge_driver.Device.{Dev, zero_dev, init_device}

-- A value, or the errno of an ERR_PTR or of a negative result.
pub data Answer : Type 0 where
  value : ℕ → Answer
  error : Errno → Answer

-- The answers of one probe, in the order of its calls. `none` is a call that returned 0.
pub record Answers : Type 0 where
  pub kzalloc : Bool
  pub ioremap : Answer
  pub clk_bulk : Answer
  pub reset : Answer
  pub irq : Answer
  pub kthread_run : ℕ → Thread
  pub chrdev_region : Option Errno
  pub cdev_add : Option Errno
  pub device_create : Answer

-- What is registered for a device: the number region, the character device and its node.
pub record Registered : Type 0 where
  pub region : Bool
  pub cdev : Bool
  pub node : Bool

abbrev pub unregistered : Registered
unregistered = record { region = false; cdev = false; node = false }

pub record Bound : Type 0 where
  pub dev : Dev
  pub registered : Registered

abbrev pub set_accelerators : Bound → List Accel → Bound
set_accelerators s as' = record s { dev = record s.dev { accelerators = as' } }

abbrev pub stop_all : Bound → Bound
stop_all s = set_accelerators s (accel_stop_workers num_accelerators s.dev.accelerators)

-- `device_create`, with its error path.
abbrev pub probe_node : Answer → Bound → Ret × Bound
probe_node (value n) s = (ok, record s { registered = record s.registered { node = true } })
probe_node (error e) s = (
  fail e,
  stop_all (record s { registered = record s.registered { region = false; cdev = false } }),
)

-- `cdev_add` and what follows it.
abbrev pub probe_cdev : Option Errno → Answer → Bound → Ret × Bound
probe_cdev none node s =
    probe_node node (record s { registered = record s.registered { cdev = true } })
probe_cdev (some e) node s =
    (fail e, stop_all (record s { registered = record s.registered { region = false } }))

-- `alloc_chrdev_region` and what follows it.
abbrev pub probe_region : Option Errno → Option Errno → Answer → Bound → Ret × Bound
probe_region none cdev node s =
    probe_cdev cdev node (record s { registered = record s.registered { region = true } })
probe_region (some e) cdev node s = (fail e, stop_all s)

-- What follows `accel_start_workers`.
abbrev pub probe_started : Answers → Ret × List Accel → Bound → Ret × Bound
probe_started k (ok, as') s =
    probe_region k.chrdev_region k.cdev_add k.device_create (set_accelerators s as')
probe_started k (fail e, as') s = (fail e, set_accelerators s as')

-- The hardware resources, in the order in which they are asked for: the first error ends the probe.
abbrev pub resources : Answer → Answer → Answer → Answer → Ret
resources (error e) clk_bulk reset irq = fail e
resources (value b) (error e) reset irq = fail e
resources (value b) (value c) (error e) irq = fail e
resources (value b) (value c) (value r) (error e) = fail e
resources (value b) (value c) (value r) (value i) = ok

abbrev pub probe_resources : Answers → Ret → Bound → Ret × Bound
probe_resources k (fail e) s = (fail e, s)
probe_resources k ok s = probe_started k (accel_start_workers k.kthread_run s.dev.accelerators) s

abbrev pub probed : Bool → Ret × Bound → Ret × Option Bound
probed false r = (fail enomem, none)
probed true (ret, s) = (ret, some s)

-- cortex_forge_probe, with the device structure it leaves, none if there was no memory for it.
unfoldable pub cortex_forge_probe : Answers → Ret × Option Bound
unfolding init_device
cortex_forge_probe k = probed k.kzalloc (
    probe_resources k (resources k.ioremap k.clk_bulk k.reset k.irq)
      (record { dev = init_device zero_dev; registered = unregistered }))

unfoldable pub cortex_forge_remove : Bound → Bound
cortex_forge_remove s = stop_all (record s { registered = unregistered })

-- What the module has registered: its class and its platform driver.
pub record Module : Type 0 where
  pub class : Bool
  pub driver : Bool

abbrev pub unloaded : Module
unloaded = record { class = false; driver = false }

-- cortex_forge_init, from what class_register and platform_driver_register return.
unfoldable pub cortex_forge_init : Option Errno → Option Errno → Module → Ret × Module
cortex_forge_init (some e) driver m = (fail e, m)
cortex_forge_init none (some e) m = (fail e, record m { class = false })
cortex_forge_init none none m = (ok, record m { class = true; driver = true })

unfoldable pub cortex_forge_exit : Module → Module
cortex_forge_exit m = record m { driver = false; class = false }
