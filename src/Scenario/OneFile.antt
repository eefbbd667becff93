-- ===== src/Scenario/OneFile.antt =====
-- The driver in one file, at concrete answers of the kernel and over a concrete run.
use cortex_forge_driver.Base.{ℕ, ◌≡◌, ◌≢◌, refl, true, false, Option, none, some, replicate, map}
use cortex_forge_driver.Errno.{ok, other}
use cortex_forge_driver.Accel.{Accel, thread}
use cortex_forge_driver.Accel.Workers.{launched}
use cortex_forge_driver.Uapi.Ioctl.{linux_abi}
use cortex_forge_driver.System.{Reach}
use cortex_forge_driver.Probe.{Answer, value, error, unregistered}
use cortex_forge_driver.SingleFile.Setup.{setup}
use cortex_forge_driver.SingleFile.Probe.{FileAnswers, FileBound, fresh, cortex_forge_probe}
use cortex_forge_driver.SingleFile.Unbind.{single_file_probe_fails}
use cortex_forge_driver.SingleFile.Whole.{SingleReach, single_file_Reach}
use cortex_forge_driver.Scenario.{user, clock}
use cortex_forge_driver.Scenario.Life.{after}
use cortex_forge_driver.SingleFile.Start.{start_workers}

-- The kernel refuses a class that is NULL with ENODEV.
abbrev checked_class : Option ℕ → Answer
checked_class none = error (other 19)
checked_class (some c) = value c

-- Every call succeeds, but for what is asked of device_create.
abbrev answers : (Option ℕ → Answer) → FileAnswers
answers create = record {
  kzalloc = true;
  ioremap = value 0x15880000;
  clk_bulk = value 6;
  reset = value 1;
  irq = value 42;
  kthread_run = λ _. thread;
  chrdev_region = none;
  cdev_add = none;
  device_create = create;
}

abbrev launched_dev : FileBound
launched_dev = record fresh {
  dev = record fresh.dev { accelerators = map launched fresh.dev.accelerators };
}

abbrev refused_dev : FileBound
refused_dev = record fresh {
  dev = record fresh.dev {
    accelerators =
        map (λ (a : Accel). record a { running = false; worker_thread = thread })
          fresh.dev.accelerators;
  };
  stops = replicate 3 thread;
}

probe_refused : (cortex_forge_probe (answers checked_class)).1 ≡ some refused_dev
unfolding cortex_forge_probe setup start_workers
probe_refused = refl

single_file_probe_fails_example :
    ((cortex_forge_probe (answers checked_class)).0 ≢ ok) × (refused_dev.registered ≡ unregistered)
single_file_probe_fails_example =
    single_file_probe_fails (answers checked_class) (other 19) refused_dev refl probe_refused

single_file_Reach_example :
    (SingleReach user clock linux_abi (after 1) → Reach user clock linux_abi (after 1))
    × (Reach user clock linux_abi (after 1) → SingleReach user clock linux_abi (after 1))
single_file_Reach_example = single_file_Reach user clock linux_abi (after 1)
