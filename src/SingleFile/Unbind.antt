-- ===== src/SingleFile/Unbind.antt =====
-- Why a probe of src/cortex_forge_main.c fails.
use cortex_forge_driver.Base.{
  ℕ, ◌≡◌, ◌≢◌, ◌∙◌, List, Bool, true, false, Option, none, some, refl, ap, sym,
}
use cortex_forge_driver.Errno.{Errno, Ret, ok, fail}
use cortex_forge_driver.Accel.{Accel, Thread}
use cortex_forge_driver.Probe.{Answer, error, Registered, unregistered, resources}
use cortex_forge_driver.SingleFile.Start.{start_workers}
use cortex_forge_driver.SingleFile.Probe.{
  FileAnswers, FileBound, alloc_region, workers_started, hardware_found, with_memory, fresh,
  cortex_forge_probe,
}

-- A probe that failed, with nothing registered.
abbrev HasFailed : Ret × FileBound → Type 0
HasFailed (ret, s) = (ret ≢ ok) × (s.registered ≡ unregistered)

alloc_region-HasFailed :
    (region cdev : Option Errno) (device_create : Option ℕ → Answer) (e : Errno) (s : FileBound)
    → device_create s.class ≡ error e
    → s.registered ≡ unregistered
    → HasFailed (alloc_region region cdev device_create s)
alloc_region-HasFailed (some e') cdev device_create e s h q = (λ k. cc, q)
alloc_region-HasFailed none (some e') device_create e s h q =
    (λ k. cc, ap (λ (x : Registered). record x { region = false }) q)
alloc_region-HasFailed none none device_create e s h q =
    rw h (λ k. cc, ap (λ (x : Registered). record x { region = false; cdev = false }) q)

workers_started-HasFailed :
    (k : FileAnswers) (e : Errno) (r : Ret × List Accel × List Thread)
    → k.device_create none ≡ error e
    → HasFailed (workers_started k r fresh)
workers_started-HasFailed k e (ok, as', stops) h =
    alloc_region-HasFailed k.chrdev_region k.cdev_add k.device_create e
      (record fresh { dev = record fresh.dev { accelerators = as' } }) h refl
workers_started-HasFailed k e (fail e', as', stops) h = (λ q. cc, refl)

hardware_found-HasFailed :
    (k : FileAnswers) (e : Errno) (r : Ret)
    → k.device_create none ≡ error e
    → HasFailed (hardware_found k r fresh)
hardware_found-HasFailed k e ok h =
    workers_started-HasFailed k e (start_workers k.kthread_run fresh.dev.accelerators) h
hardware_found-HasFailed k e (fail e') h = (λ q. cc, refl)

memory_case :
    (b : Bool) (r : Ret × FileBound) (s : FileBound)
    → HasFailed r
    → (with_memory b r).1 ≡ some s
    → ((with_memory b r).0 ≢ ok) × (s.registered ≡ unregistered)
memory_case false r s h e = cc
memory_case true r s h e =
    let same : r.1 ≡ s = cc in (h.0, ap (λ (x : FileBound). x.registered) (sym same) ∙ h.1)

-- When device_create refuses a class that is NULL, then a probe of the driver in one file that gets
-- memory fails, whatever the other calls of the kernel return, and leaves nothing registered: the file
-- never sets the class of the device structure.
pub single_file_probe_fails :
    (k : FileAnswers) (e : Errno) (s : FileBound)
    → k.device_create none ≡ error e
    → (cortex_forge_probe k).1 ≡ some s
    → ((cortex_forge_probe k).0 ≢ ok) × (s.registered ≡ unregistered)
unfolding cortex_forge_probe
single_file_probe_fails k e s h got =
    memory_case k.kzalloc (hardware_found k (resources k.ioremap k.clk_bulk k.reset k.irq) fresh) s
      (hardware_found-HasFailed k e (resources k.ioremap k.clk_bulk k.reset k.irq) h) got
