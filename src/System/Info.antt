-- ===== src/System/Info.antt =====
-- What a client reads of an accelerator.
use cortex_forge_driver.Base.{ℕ, zero, suc, ◌*◌, ◌≡◌, ◌<◌, some, refl, arith, ap, ◌∙◌}
use cortex_forge_driver.Accel.{Accel, num_accelerators, accel_init, accel_get_info}
use cortex_forge_driver.Kernel.{UserMemory, Clock, accel_info}
use cortex_forge_driver.Uapi.{AccelInfo}
use cortex_forge_driver.Uapi.Ioctl.{IoctlAbi}
use cortex_forge_driver.Device.{accel_at, init_device}
use cortex_forge_driver.Chardev.{cortex_forge_ioctl, copied_out, ioctl_get_accel_info}
use cortex_forge_driver.Chardev.Frame.{ioctl-Effect}
use cortex_forge_driver.Chardev.Dispatch.{cortex_forge_ioctl-code, code, get_accel_info}
use cortex_forge_driver.System.{System, boot, Step, Reach, start, later, call, work}
use cortex_forge_driver.System.Fixed.{fixed-worker_step, fixed-Effect}
use cortex_forge_driver.System.Order.{loaded}
use cortex_forge_driver.System.Steps.{Reach-IsSound}

-- The fields that a client reads, but for the load.
abbrev pub constants : Accel → ℕ × ℕ × ℕ × ℕ × ℕ × ℕ × ℕ
constants x =
    (x.freq_hz, x.temp_celsius, x.fw_version, x.hw_version, x.mem_total, x.mem_free, x.state)

-- As accel_init sets them.
abbrev pub factory : ℕ × ℕ × ℕ × ℕ × ℕ × ℕ × ℕ
factory = (1000000000, 40, 0x00010000, 0x02000000, 1024 * 1024 * 1024, 1024 * 1024 * 1024, 2)

boot-constants : (a : ℕ) → a < num_accelerators → constants (accel_at boot.dev a) ≡ factory
unfolding init_device accel_init
boot-constants zero l = refl
boot-constants (suc zero) l = refl
boot-constants (suc (suc zero)) l = refl
boot-constants (suc (suc (suc a))) l = absurd (omega (arith, l))

-- An information of an accelerator with this load.
abbrev pub informed : ℕ → AccelInfo → AccelInfo
informed load info = record info {
  freq_hz = 1000000000;
  temp_celsius = 40;
  load_percent = load;
  fw_version = 0x00010000;
  hw_version = 0x02000000;
  mem_total = 1024 * 1024 * 1024;
  mem_free = 1024 * 1024 * 1024;
  state = 2;
}

informed_lem :
    (x : Accel) (info : AccelInfo)
    → constants x ≡ factory
    → accel_get_info x info ≡ informed x.load_percent info
unfolding accel_get_info
informed_lem x info same =
    ap
      (λ (f : ℕ × ℕ × ℕ × ℕ × ℕ × ℕ × ℕ). record info {
        freq_hz = f.0;
        temp_celsius = f.1;
        load_percent = x.load_percent;
        fw_version = f.2;
        hw_version = f.3;
        mem_total = f.4;
        mem_free = f.5;
        state = f.6;
      })
      same

module _ (user : UserMemory) (clock : Clock) (abi : IoctlAbi) where
  open user use {Mem, copy_from_user, copy_to_user}

  Step-constants :
      {s t : System}
      → Reach user clock abi s
      → Step user clock abi s t
      → (a : ℕ) → constants (accel_at t.dev a) ≡ constants (accel_at s.dev a)
  Step-constants {s} r (call cmd m uarg now e) a =
      ap (λ (x : System). constants (accel_at x.dev a)) e
      ∙ fixed-Effect constants (λ x q ac n. refl) a
          (ioctl-Effect user clock abi s.dev cmd m uarg now (Reach-IsSound user clock abi r).order)
  Step-constants {s} r (work b m lt e) a =
      ap (λ (x : System). constants (accel_at x.dev a)) e
      ∙ fixed-worker_step constants (λ x q ac n. refl) clock m s.dev b a (s.pc b)

  Reach-constants :
      {s : System}
      → Reach user clock abi s
      → (a : ℕ) → a < num_accelerators
      → constants (accel_at s.dev a) ≡ factory
  Reach-constants start a l = boot-constants a l
  Reach-constants (later r st) a l = Step-constants r st a ∙ Reach-constants r a l

  -- In every reachable state an information request for one of the three accelerators copies out the
  -- values that the driver set at its start, power state 2 among them, whatever power modes the clients
  -- have set, with a load of 10 percent while the worker is between adding its load and taking it off
  -- again and of 0 else; the device stays as it is.
  pub accel_info_lem :
      {s : System}
      → Reach user clock abi s
      → (m : Mem) (uarg now : ℕ) (info : AccelInfo) → copy_from_user accel_info m uarg ≡ some info
      → info.accel_type < num_accelerators
      → cortex_forge_ioctl user clock abi s.dev (code abi get_accel_info) m uarg now
        ≡ copied_out user clock abi s.dev
            (copy_to_user accel_info m uarg (informed (loaded (s.pc info.accel_type)) info))
  unfolding ioctl_get_accel_info
  accel_info_lem {s} r m uarg now info read valid =
      cortex_forge_ioctl-code user clock abi s.dev m uarg now get_accel_info
      ∙ rw (read, ioctl_get_accel_info)
          (ground (
            arith,
            valid,
            informed_lem (accel_at s.dev info.accel_type) info
                (Reach-constants r info.accel_type valid),
            ((Reach-IsSound user clock abi r).lanes info.accel_type).load,
          ))
