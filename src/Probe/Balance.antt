-- ===== src/Probe/Balance.antt =====
-- What the error paths of src/main.c and its remove and exit functions undo.
use cortex_forge_driver.Base.{
  sym, subst, ◌∙◌, ap, refl, ℕ, ◌≡◌, ◌≢◌, ◌⊎◌, inl, inr, Bool, true, false, Option, none, some,
  length, map,
}
use cortex_forge_driver.Probe.{
  cortex_forge_exit, unloaded, probed, cortex_forge_init, Answer, value, error, Answers, Registered,
  unregistered, Bound, stop_all, probe_region, probe_started, probe_resources, resources,
  cortex_forge_probe, cortex_forge_remove, set_accelerators,
}
use cortex_forge_driver.Device.{init_device, zero_dev}
use cortex_forge_driver.Accel.{num_accelerators, null, accel_init}
use cortex_forge_driver.Accel.Workers.{
  stop_all_launched, accel_stop_workers, launched, accel_start_workers,
}
use cortex_forge_driver.Errno.{Ret, fail, Errno, ok}
use cortex_forge_driver.Accel.Live.{
  any_live-stopped_before, any_live-stopped, all_live, all_live-launched, start_outcome, any_live,
}

abbrev pub IsClean : Bound → Type 0
IsClean s = (s.registered ≡ unregistered) × (any_live s.dev.accelerators ≡ false)

abbrev pub all_registered : Registered
all_registered = record { region = true; cdev = true; node = true }

abbrev IsRemovable : Bound → Type 0
IsRemovable s =
    (s.registered ≡ all_registered)
    × (all_live s.dev.accelerators ≡ true)
    × (any_live (stop_all s).dev.accelerators ≡ false)

-- What a probe that fails leaves, and what one that succeeds leaves.
abbrev IsSettled : Ret × Bound → Type 0
IsSettled (ok, s) = IsRemovable s
IsSettled (fail e, s) = IsClean s

-- What holds of a device whose workers run when its character device is asked for.
record IsStarted (s : Bound) : Type 0 where
  none_registered : s.registered ≡ unregistered
  running : all_live s.dev.accelerators ≡ true
  stoppable : any_live (stop_all s).dev.accelerators ≡ false

probe_region-IsSettled :
    (region cdev : Option Errno) (node : Answer) (s : Bound)
    → IsStarted s
    → IsSettled (probe_region region cdev node s)
probe_region-IsSettled (some e) cdev node s v = (v.none_registered, v.stoppable)
probe_region-IsSettled none (some e) node s v =
    (ap (λ (x : Registered). record x { region = false }) v.none_registered, v.stoppable)
probe_region-IsSettled none none (error e) s v = (
  ap (λ (x : Registered). record x { region = false; cdev = false }) v.none_registered,
  v.stoppable,
)
probe_region-IsSettled none none (value n) s v = (
  ap (λ (x : Registered). record x { region = true; cdev = true; node = true }) v.none_registered,
  v.running,
  v.stoppable,
)

-- What holds of the device before its workers are started: as many accelerators as the driver stops,
-- and none with a thread.
record IsIdle (s : Bound) : Type 0 where
  none_registered : s.registered ≡ unregistered
  three : length s.dev.accelerators ≡ num_accelerators
  idle : any_live s.dev.accelerators ≡ false

start-IsStarted :
    (s : Bound) → IsIdle s → IsStarted (set_accelerators s (map launched s.dev.accelerators))
start-IsStarted s v = record {
  none_registered = v.none_registered;
  running = all_live-launched s.dev.accelerators;
  stoppable =
      ap (λ n. any_live (accel_stop_workers n (map launched s.dev.accelerators))) (sym v.three)
      ∙ ap any_live (stop_all_launched s.dev.accelerators)
      ∙ any_live-stopped s.dev.accelerators;
}

probe_started-IsSettled :
    (k : Answers) (s : Bound)
    → ((j : ℕ) → k.kthread_run j ≢ null)
    → IsIdle s
    → IsSettled (probe_started k (accel_start_workers k.kthread_run s.dev.accelerators) s)
probe_started-IsSettled k s h v = elim (start_outcome k.kthread_run s.dev.accelerators h) [
  | inl all ↦
      subst (λ r. IsSettled (probe_started k r s)) (sym all)
        (probe_region-IsSettled k.chrdev_region k.cdev_add k.device_create
          (set_accelerators s (map launched s.dev.accelerators)) (start-IsStarted s v))
  | inr (n, e, failed) ↦
      subst (λ r. IsSettled (probe_started k r s)) (sym failed)
        (v.none_registered, any_live-stopped_before n e s.dev.accelerators v.idle)
]

probe_resources-IsSettled :
    (k : Answers) (r : Ret) (s : Bound)
    → ((j : ℕ) → k.kthread_run j ≢ null)
    → IsIdle s
    → IsSettled (probe_resources k r s)
probe_resources-IsSettled k ok s h v = probe_started-IsSettled k s h v
probe_resources-IsSettled k (fail e) s h v = (v.none_registered, v.idle)

init-IsIdle : IsIdle (record { dev = init_device zero_dev; registered = unregistered })
unfolding init_device accel_init
init-IsIdle = record { none_registered = refl; three = refl; idle = refl }

probed-some :
    {ret : Ret} {s : Bound} (got : Bool) (r : Ret × Bound)
    → probed got r ≡ (ret, some s)
    → r ≡ (ret, s)
probed-some false (ret, s) e = cc
probed-some true (ret, s) e = cc

probe-IsSettled :
    (k : Answers) (ret : Ret) (s : Bound)
    → ((j : ℕ) → k.kthread_run j ≢ null)
    → cortex_forge_probe k ≡ (ret, some s)
    → IsSettled (ret, s)
unfolding cortex_forge_probe
probe-IsSettled k ret s h e =
    subst IsSettled (probed-some k.kzalloc _ e)
      (probe_resources-IsSettled k (resources k.ioremap k.clk_bulk k.reset k.irq) _ h init-IsIdle)

-- A probe that fails with its device structure allocated leaves nothing registered and no worker
-- thread running, at whichever call it fails, provided that kthread_run never returns NULL.
pub probe_failed :
    (k : Answers) (e : Errno) (s : Bound)
    → ((j : ℕ) → k.kthread_run j ≢ null)
    → cortex_forge_probe k ≡ (fail e, some s)
    → (s.registered ≡ unregistered) × (any_live s.dev.accelerators ≡ false)
probe_failed k e s h q = probe-IsSettled k (fail e) s h q

-- A probe that succeeds leaves the region, the character device and its node registered and every
-- worker running, and removing the device then leaves nothing registered and no worker running,
-- provided that kthread_run never returns NULL.
pub probe_then_remove :
    (k : Answers) (s : Bound)
    → ((j : ℕ) → k.kthread_run j ≢ null)
    → cortex_forge_probe k ≡ (ok, some s)
    → ((s.registered ≡ all_registered) × (all_live s.dev.accelerators ≡ true))
      × (((cortex_forge_remove s).registered ≡ unregistered)
          × (any_live (cortex_forge_remove s).dev.accelerators ≡ false))
unfolding cortex_forge_remove
probe_then_remove k s h q =
    let (up, live, stop) = probe-IsSettled k ok s h q in ((up, live), (refl, stop))

-- Loading the module returns 0 with both the class and the platform driver registered, which
-- unloading takes back, or an error with neither registered.
pub init_then_exit :
    (c p : Option Errno)
    → let (ret, m) = cortex_forge_init c p unloaded in
      ((ret ≡ ok) × (m.class ≡ true) × (m.driver ≡ true) × (cortex_forge_exit m ≡ unloaded))
      ⊎ ((e : Errno) × (ret ≡ fail e) × (m ≡ unloaded))
unfolding cortex_forge_init cortex_forge_exit
init_then_exit (some e) p = inr (e, refl, refl)
init_then_exit none (some e) = inr (e, refl, refl)
init_then_exit none none = inl (refl, refl, refl, refl)
