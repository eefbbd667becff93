-- ===== src/Chardev/Cases.antt =====
-- The branches of the ioctl handler.
use cortex_forge_driver.Base.{ℕ, ◌==◌, if_cases}
use cortex_forge_driver.Errno.{fail, enotty}
use cortex_forge_driver.Kernel.{UserMemory, Clock}
use cortex_forge_driver.Uapi.Ioctl.{IoctlAbi}
use cortex_forge_driver.Uapi.Ioctl
use cortex_forge_driver.Device.{Dev}
use cortex_forge_driver.Chardev.{
  Outcome, ioctl_submit_task, ioctl_query_task, ioctl_cancel_task, ioctl_get_accel_info,
  ioctl_set_power, ioctl_get_version, ioctl_get_profile, ioctl_set_accel, cortex_forge_ioctl,
}

module _ (user : UserMemory) (clock : Clock) (abi : IoctlAbi) (d : Dev) where
  open user use {Mem}

  -- What holds of the outcome of each command, and of the refusal of any other, holds of the handler's.
  pub ioctl_cases {κ} :
      (P : Outcome user clock abi → Type κ) (cmd : ℕ) (m : Mem) (uarg now : ℕ)
      → P (ioctl_submit_task user clock abi d m uarg now)
      → P (ioctl_query_task user clock abi d m uarg)
      → P (ioctl_cancel_task user clock abi d m uarg)
      → P (ioctl_get_accel_info user clock abi d m uarg)
      → P (ioctl_set_power user clock abi d m uarg)
      → P (ioctl_get_version user clock abi d m uarg)
      → P (ioctl_get_profile user clock abi d m uarg)
      → P (ioctl_set_accel user clock abi d m uarg)
      → P (fail enotty, d, m)
      → P (cortex_forge_ioctl user clock abi d cmd m uarg now)
  unfolding cortex_forge_ioctl
  ioctl_cases P cmd m uarg now submit query cancel info power version profile accel others =
      if_cases P (cmd == Ioctl.submit_task abi) submit (
        if_cases P (cmd == Ioctl.query_task abi) query (
          if_cases P (cmd == Ioctl.cancel_task abi) cancel (
            if_cases P (cmd == Ioctl.get_accel_info abi) info (
              if_cases P (cmd == Ioctl.set_power abi) power (
                if_cases P (cmd == Ioctl.get_version abi) version (
                  if_cases P (cmd == Ioctl.get_profile abi) profile
                    (if_cases P (cmd == Ioctl.set_accel abi) accel others)))))))
