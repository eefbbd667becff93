-- ===== src/Chardev/Files.antt =====
-- open and release of src/chardev.c, and the ioctl handler on the device that a file was opened for.
-- Devices are numbered; the number of a device is that of its cdev.
use cortex_forge_driver.Base.{write_ne, write_self, ◌∙◌, ap, ◌≢◌, ◌≡◌, ℕ, Option, none, some, write}
use cortex_forge_driver.Errno.{Ret, ok}
use cortex_forge_driver.Kernel.{UserMemory, Clock}
use cortex_forge_driver.Uapi.Ioctl.{IoctlAbi}
use cortex_forge_driver.Device.{Dev}
use cortex_forge_driver.Chardev.{cortex_forge_ioctl, Outcome}

pub record Inode : Type 0 where
  pub i_cdev : ℕ

pub record File : Type 0 where
  pub private_data : Option ℕ

unfoldable pub cortex_forge_open : Inode → File → Ret × File
cortex_forge_open inode filp = (ok, record filp { private_data = some inode.i_cdev })

unfoldable pub cortex_forge_release : Inode → File → Ret × File
cortex_forge_release inode filp = (ok, filp)

module _ (user : UserMemory) (clock : Clock) (abi : IoctlAbi) where
  open user use {Mem}

  abbrev pub stored : (ℕ → Dev) → ℕ → Outcome user clock abi → Ret × (ℕ → Dev) × Mem
  stored devs n (ret, d, m) = (ret, write devs n d, m)

  -- A call on an open file, with all the devices.
  abbrev pub on_device : Option ℕ → (ℕ → Dev) → ℕ → Mem → ℕ → ℕ → Option (Ret × (ℕ → Dev) × Mem)
  on_device none devs cmd m uarg now = none
  on_device (some n) devs cmd m uarg now =
      some (stored devs n (cortex_forge_ioctl user clock abi (devs n) cmd m uarg now))

  -- A call on a file that was opened for a device changes no other device, and leaves of its device
  -- what the ioctl handler leaves.
  open_then_ioctl :
      (inode : Inode) (filp : File) (devs devs' : ℕ → Dev) (cmd : ℕ) (m m' : Mem) (uarg now : ℕ)
      (ret : Ret)
      → on_device (cortex_forge_open inode filp).1.private_data devs cmd m uarg now
        ≡ some (ret, devs', m')
      → (devs' inode.i_cdev
          ≡ (cortex_forge_ioctl user clock abi (devs inode.i_cdev) cmd m uarg now).1)
        × ((n : ℕ) → inode.i_cdev ≢ n → devs' n ≡ devs n)
  unfolding cortex_forge_open
  open_then_ioctl inode filp devs devs' cmd m m' uarg now ret e =
      let d' : Dev = (cortex_forge_ioctl user clock abi (devs inode.i_cdev) cmd m uarg now).1 in
      let after : devs' ≡ write devs inode.i_cdev d' = cc in
      (
        ap (λ f. f inode.i_cdev) after ∙ write_self devs inode.i_cdev d',
        λ n ne. ap (λ f. f n) after ∙ write_ne devs inode.i_cdev n d' ne,
      )
