-- ===== src/Chardev/Dispatch.antt =====
-- The switch of the ioctl handler: each command of the header reaches its own handler, and any other
-- command is refused.
use cortex_forge_driver.Uapi.Ioctl
use cortex_forge_driver.Uapi.Ioctl.{IoctlAbi, Dir, iow, ior, iowr, command_ne_of_nr}
use cortex_forge_driver.Uapi.Layout.{
  Field, u32, sizeof, task_desc_fields, task_status_fields, accel_info_fields,
  profile_metrics_fields,
}
use cortex_forge_driver.Base.{==-ne, false, [], refl, ◌==◌, ◌∷◌, arith, List, ◌≡◌, ℕ, ◌<◌, ◌≢◌}
use cortex_forge_driver.Kernel.{Clock, UserMemory}
use cortex_forge_driver.Device.{Dev}
use cortex_forge_driver.Chardev.{
  ioctl_set_accel, ioctl_get_profile, ioctl_get_version, ioctl_set_power, ioctl_get_accel_info,
  ioctl_cancel_task, ioctl_query_task, ioctl_submit_task, Outcome, cortex_forge_ioctl,
}
use cortex_forge_driver.Errno.{enotty, fail}

-- The commands of the header, in the order of their numbers.
pub data Command : Type 0 where
  submit_task query_task cancel_task get_accel_info set_power get_version get_profile set_accel :
      Command

abbrev pub number : Command → ℕ
number submit_task = 1
number query_task = 2
number cancel_task = 3
number get_accel_info = 4
number set_power = 5
number get_version = 6
number get_profile = 7
number set_accel = 8

abbrev pub dir : Command → Dir
dir submit_task = iowr
dir query_task = iowr
dir cancel_task = iow
dir get_accel_info = ior
dir set_power = iow
dir get_version = ior
dir get_profile = ior
dir set_accel = iow

abbrev pub fields : Command → List Field
fields submit_task = task_desc_fields
fields query_task = task_status_fields
fields cancel_task = u32 ∷ []
fields get_accel_info = accel_info_fields
fields set_power = u32 ∷ []
fields get_version = u32 ∷ []
fields get_profile = profile_metrics_fields
fields set_accel = u32 ∷ []

abbrev pub code : IoctlAbi → Command → ℕ
code abi submit_task = Ioctl.submit_task abi
code abi query_task = Ioctl.query_task abi
code abi cancel_task = Ioctl.cancel_task abi
code abi get_accel_info = Ioctl.get_accel_info abi
code abi set_power = Ioctl.set_power abi
code abi get_version = Ioctl.get_version abi
code abi get_profile = Ioctl.get_profile abi
code abi set_accel = Ioctl.set_accel abi

pub code_lem :
    (abi : IoctlAbi) (c : Command) → code abi c ≡ Ioctl.command abi (dir c) (number c) (fields c)
code_lem abi submit_task = refl
code_lem abi query_task = refl
code_lem abi cancel_task = refl
code_lem abi get_accel_info = refl
code_lem abi set_power = refl
code_lem abi get_version = refl
code_lem abi get_profile = refl
code_lem abi set_accel = refl

pub number_lt : (c : Command) → number c < 16
number_lt c = ground arith

pub sizeof-fields-lt : (c : Command) → sizeof (fields c) < 100
unfolding sizeof
sizeof-fields-lt submit_task = omega arith
sizeof-fields-lt query_task = omega arith
sizeof-fields-lt cancel_task = omega arith
sizeof-fields-lt get_accel_info = omega arith
sizeof-fields-lt set_power = omega arith
sizeof-fields-lt get_version = omega arith
sizeof-fields-lt get_profile = omega arith
sizeof-fields-lt set_accel = omega arith

module _ (abi : IoctlAbi) where
  pub code_ne : (c c' : Command) → number c ≢ number c' → (code abi c == code abi c') ≡ false
  code_ne c c' ne = ==-ne (code abi c) (code abi c') (
      rw (code_lem abi c, code_lem abi c')
        (Ioctl.command_ne_of_nr abi (dir c) (dir c') (number c) (number c') (fields c) (fields c')
          (omega (arith, number_lt c)) (omega (arith, number_lt c'))
          (omega (arith, sizeof-fields-lt c)) (omega (arith, sizeof-fields-lt c')) ne))

module _ (user : UserMemory) (clock : Clock) (abi : IoctlAbi) (d : Dev) (m : user.Mem)
    (uarg now : ℕ) where
  abbrev pub handler : Command → Outcome user clock abi
  handler submit_task = ioctl_submit_task user clock abi d m uarg now
  handler query_task = ioctl_query_task user clock abi d m uarg
  handler cancel_task = ioctl_cancel_task user clock abi d m uarg
  handler get_accel_info = ioctl_get_accel_info user clock abi d m uarg
  handler set_power = ioctl_set_power user clock abi d m uarg
  handler get_version = ioctl_get_version user clock abi d m uarg
  handler get_profile = ioctl_get_profile user clock abi d m uarg
  handler set_accel = ioctl_set_accel user clock abi d m uarg

  -- Each command of the header is carried out by its own handler, whatever numbers the kernel's
  -- encoding gives to the commands.
  pub cortex_forge_ioctl-code :
      (c : Command) → cortex_forge_ioctl user clock abi d (code abi c) m uarg now ≡ handler c
  unfolding cortex_forge_ioctl
  cortex_forge_ioctl-code submit_task = ground arith
  cortex_forge_ioctl-code query_task =
      ground (arith, code_ne abi query_task submit_task (omega arith))
  cortex_forge_ioctl-code cancel_task = ground (
    arith,
    code_ne abi cancel_task submit_task (omega arith),
    code_ne abi cancel_task query_task (omega arith),
  )
  cortex_forge_ioctl-code get_accel_info = ground (
    arith,
    code_ne abi get_accel_info submit_task (omega arith),
    code_ne abi get_accel_info query_task (omega arith),
    code_ne abi get_accel_info cancel_task (omega arith),
  )
  cortex_forge_ioctl-code set_power = ground (
    arith,
    code_ne abi set_power submit_task (omega arith),
    code_ne abi set_power query_task (omega arith),
    code_ne abi set_power cancel_task (omega arith),
    code_ne abi set_power get_accel_info (omega arith),
  )
  cortex_forge_ioctl-code get_version = ground (
    arith,
    code_ne abi get_version submit_task (omega arith),
    code_ne abi get_version query_task (omega arith),
    code_ne abi get_version cancel_task (omega arith),
    code_ne abi get_version get_accel_info (omega arith),
    code_ne abi get_version set_power (omega arith),
  )
  cortex_forge_ioctl-code get_profile = ground (
    arith,
    code_ne abi get_profile submit_task (omega arith),
    code_ne abi get_profile query_task (omega arith),
    code_ne abi get_profile cancel_task (omega arith),
    code_ne abi get_profile get_accel_info (omega arith),
    code_ne abi get_profile set_power (omega arith),
    code_ne abi get_profile get_version (omega arith),
  )
  cortex_forge_ioctl-code set_accel = ground (
    arith,
    code_ne abi set_accel submit_task (omega arith),
    code_ne abi set_accel query_task (omega arith),
    code_ne abi set_accel cancel_task (omega arith),
    code_ne abi set_accel get_accel_info (omega arith),
    code_ne abi set_accel set_power (omega arith),
    code_ne abi set_accel get_version (omega arith),
    code_ne abi set_accel get_profile (omega arith),
  )

  -- A number that is no command of the header is refused with ENOTTY, and nothing changes.
  pub cortex_forge_ioctl_unknown :
      (cmd : ℕ)
      → ((c : Command) → cmd ≢ code abi c)
      → cortex_forge_ioctl user clock abi d cmd m uarg now ≡ (fail enotty, d, m)
  unfolding cortex_forge_ioctl
  cortex_forge_ioctl_unknown cmd unknown = ground (
    arith,
    ==-ne cmd (code abi submit_task) (unknown submit_task),
    ==-ne cmd (code abi query_task) (unknown query_task),
    ==-ne cmd (code abi cancel_task) (unknown cancel_task),
    ==-ne cmd (code abi get_accel_info) (unknown get_accel_info),
    ==-ne cmd (code abi set_power) (unknown set_power),
    ==-ne cmd (code abi get_version) (unknown get_version),
    ==-ne cmd (code abi get_profile) (unknown get_profile),
    ==-ne cmd (code abi set_accel) (unknown set_accel),
  )
