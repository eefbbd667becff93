-- ===== src/Scenario/Machine.antt =====
-- The worker threads' start, the probe and the interrupt handler, at concrete answers of the kernel.
use cortex_forge_driver.Base.{
  ◌++◌, replicate, ℕ, zero, suc, ◌≡◌, ◌≢◌, ◌<◌, arith, refl, List, [], ◌∷◌, some, none, true, false,
  map,
}
use cortex_forge_driver.Device.{Dev, zero_dev, init_device}
use cortex_forge_driver.Errno.{ok, fail, enomem}
use cortex_forge_driver.Accel.{Accel, Thread, thread, null, err_ptr, zero_accel}
use cortex_forge_driver.Probe.{
  unregistered, cortex_forge_remove, Bound, Answers, value, error, cortex_forge_probe,
}
use cortex_forge_driver.Accel.Workers.{stopped, launched, accel_start_workers}
use cortex_forge_driver.Probe.Balance.{probe_then_remove, probe_failed, all_registered}
use cortex_forge_driver.Accel.Live.{all_live, any_live}
use cortex_forge_driver.SingleFile.Start.{start_workers_stops, start_workers}
use cortex_forge_driver.Worker.Stop.{stopped_worker_exits, places, IsStopping}
use cortex_forge_driver.Worker.{exited, spinning, Moment}
use cortex_forge_driver.Scenario.{clock}

abbrev two_accels : List Accel
two_accels = zero_accel ∷ zero_accel ∷ []

-- Every thread starts but the second.
abbrev second_fails : ℕ → Thread
second_fails (suc zero) = err_ptr enomem
second_fails _ = thread

first_starts : (j : ℕ) → j < 1 → second_fails j ≡ thread
first_starts zero l = refl
first_starts (suc j) l = absurd (omega arith)

-- A probe in which every call succeeds.
abbrev all_good : Answers
all_good = record {
  kzalloc = true;
  ioremap = value 0x15880000;
  clk_bulk = value 6;
  reset = value 1;
  irq = value 42;
  kthread_run = λ _. thread;
  chrdev_region = none;
  cdev_add = none;
  device_create = value 1;
}

-- One whose last call fails.
abbrev no_node : Answers
no_node = record all_good { device_create = error enomem }

thread≢null : thread ≢ null
thread≢null e = cc

-- The accelerators before their workers start.
abbrev accels : List Accel
accels = (init_device zero_dev).accelerators

abbrev up : Bound
up = record {
  dev = record { pool = (init_device zero_dev).pool; accelerators = map launched accels };
  registered = all_registered;
}

abbrev down : Bound
down = record {
  dev = record { pool = (init_device zero_dev).pool; accelerators = map stopped accels };
  registered = unregistered;
}

probe_up : cortex_forge_probe all_good ≡ (ok, some up)
unfolding cortex_forge_probe accel_start_workers init_device
probe_up = refl

probe_down : cortex_forge_probe no_node ≡ (fail enomem, some down)
unfolding cortex_forge_probe accel_start_workers init_device
probe_down = refl

probe_then_remove_example :
    ((up.registered ≡ all_registered) × (all_live up.dev.accelerators ≡ true))
    × (((cortex_forge_remove up).registered ≡ unregistered)
        × (any_live (cortex_forge_remove up).dev.accelerators ≡ false))
probe_then_remove_example = probe_then_remove all_good up (λ j. thread≢null) probe_up

probe_failed_example : (down.registered ≡ unregistered) × (any_live down.dev.accelerators ≡ false)
probe_failed_example = probe_failed no_node enomem down (λ j. thread≢null) probe_down

-- The error path of the driver in one file, when the second thread does not start.
start_workers_stops_example :
    let (ret, _, stops) = start_workers second_fails two_accels in
    (ret ≡ fail enomem) × (stops ≡ replicate 1 thread ++ err_ptr enomem ∷ [])
start_workers_stops_example =
    start_workers_stops second_fails 1 enomem two_accels (refl, (refl, tt)) (omega arith)
      first_starts refl

-- Thirteen steps of a worker that is told to stop, in the inner loop for a task of a long timeout.
abbrev stopping : List (Moment × Dev)
stopping = replicate 13 (record { now = 100; should_stop = true }, zero_dev)

stopping-IsStopping : IsStopping clock 1 stopping
stopping-IsStopping = (
  refl,
  refl,
  (
    refl,
    refl,
    (
      refl,
      refl,
      (
        refl,
        refl,
        (
          refl,
          refl,
          (
            refl,
            refl,
            (
              refl,
              refl,
              (
                refl,
                refl,
                (refl, refl, (refl, refl, (refl, refl, (refl, refl, (refl, refl, tt))))),
              ),
            ),
          ),
        ),
      ),
    ),
  ),
)

stopped_worker_exits_example : places clock 1 stopping (spinning 0 100 100000) ≡ exited
stopped_worker_exits_example =
    stopped_worker_exits clock 1 stopping (spinning 0 100 100000) stopping-IsStopping (omega arith)
