-- ===== src/Library/Refused.antt =====
-- The library's commands at the driver: the structs of the two headers differ in size, so the commands
-- that carry them differ in number.
use cortex_forge_driver.Library.Commands.{
  LibCall, lib_code, submit, query, cancel, info, power, version, lib_task_desc_fields,
  lib_task_status_fields, lib_accel_info_fields,
}
use cortex_forge_driver.Chardev.Dispatch.{
  sizeof-fields-lt, number_lt, number, dir, code_lem, fields, Command, submit_task, query_task,
  cancel_task, get_accel_info, set_power, get_version, get_profile, set_accel, code,
  cortex_forge_ioctl_unknown,
}
use cortex_forge_driver.Uapi.Ioctl.{Dir, IoctlAbi, command, command_ne_of_size, ior, iowr}
use cortex_forge_driver.Kernel.{Clock, UserMemory}
use cortex_forge_driver.Base.{
  ◌∙◌, sym, ap, suc, some, none, ◌<◌, List, Option, arith, refl, ℕ, ◌≢◌, false, true, Bool, ◌≡◌,
}
use cortex_forge_driver.Device.{Dev}
use cortex_forge_driver.Chardev.{Outcome, cortex_forge_ioctl}
use cortex_forge_driver.Errno.{ok, Errno, Ret, enotty, fail}
use cortex_forge_driver.Library.{
  ret_of, Handle, ptr, cortex_forge_get_accel_info, cortex_forge_query_task,
  cortex_forge_submit_task, Libc,
}
use cortex_forge_driver.Uapi.Layout.{Field, sizeof}

abbrev carries_struct : LibCall → Bool
carries_struct submit = true
carries_struct query = true
carries_struct info = true
carries_struct _ = false

-- The sizes of the driver's structs.
abbrev struct_size : Command → ℕ
struct_size submit_task = 80
struct_size query_task = 32
struct_size get_accel_info = 56
struct_size get_profile = 72
struct_size _ = 4

sizeof-fields : (c : Command) → sizeof (fields c) ≡ struct_size c
unfolding sizeof
sizeof-fields submit_task = refl
sizeof-fields query_task = refl
sizeof-fields cancel_task = refl
sizeof-fields get_accel_info = refl
sizeof-fields set_power = refl
sizeof-fields get_version = refl
sizeof-fields get_profile = refl
sizeof-fields set_accel = refl

size_48_free : (c : Command) → struct_size c ≢ 48
size_48_free c = ground arith

size_24_free : (c : Command) → struct_size c ≢ 24
size_24_free c = ground arith

-- A command over a struct of another size than the driver's structs is none of the driver's.
command_ne_code :
    (abi : IoctlAbi) (d : Dir) (nr : ℕ) (fs : List Field) (c : Command)
    → nr < 16
    → sizeof fs < 100
    → struct_size c ≢ sizeof fs
    → command abi d nr fs ≢ code abi c
command_ne_code abi d nr fs c small bounded ne = rw (code_lem abi c) (
    command_ne_of_size abi d (dir c) nr (number c) fs (fields c) (omega arith)
      (omega (arith, number_lt c)) (omega arith) (omega (arith, sizeof-fields-lt c))
      (λ e. ne (sym (sizeof-fields c) ∙ sym e)))

-- A library command that carries a struct is no command of the driver.
lib_code_ne_code :
    (abi : IoctlAbi) (l : LibCall)
    → carries_struct l ≡ true
    → (c : Command) → lib_code abi l ≢ code abi c
unfolding sizeof
lib_code_ne_code abi submit h c =
    command_ne_code abi iowr 1 lib_task_desc_fields c (omega arith) (omega arith) (size_48_free c)
lib_code_ne_code abi query h c =
    command_ne_code abi iowr 2 lib_task_status_fields c (omega arith) (omega arith) (size_24_free c)
lib_code_ne_code abi info h c =
    command_ne_code abi ior 4 lib_accel_info_fields c (omega arith) (omega arith) (size_48_free c)
lib_code_ne_code abi cancel h c = cc
lib_code_ne_code abi power h c = cc
lib_code_ne_code abi version h c = cc

module _ (user : UserMemory) (clock : Clock) (abi : IoctlAbi) (d : Dev) (m : user.Mem)
    (uarg now : ℕ) where
  -- The driver refuses the library's submit, query and info commands with ENOTTY, in every state and
  -- for every argument, and nothing changes.
  pub library_structs_refused :
      (l : LibCall)
      → carries_struct l ≡ true
      → cortex_forge_ioctl user clock abi d (lib_code abi l) m uarg now ≡ (fail enotty, d, m)
  library_structs_refused l h =
      cortex_forge_ioctl_unknown user clock abi d m uarg now (lib_code abi l)
        (lib_code_ne_code abi l h)

-- The same seen by a client of the library, whose ioctl(2) on the driver's descriptor fails with the
-- errno that the driver's handler returns.
abbrev pub errno_of : Ret → Option Errno
errno_of ok = none
errno_of (fail e) = some e

module _ (user : UserMemory) (clock : Clock) (abi : IoctlAbi) (libc : Libc) where
  -- A submission, a query or an information request through the library, with a handle and a pointer
  -- that is not NULL, fails with ENOTTY in every state of the driver, provided that ioctl(2) sets errno
  -- to what the driver's handler returns.
  pub library_calls_fail :
      (dev : libc.World → Dev) (mem : libc.World → user.Mem) (now : libc.World → ℕ)
      → ((w : libc.World) (fd cmd p : ℕ)
          → (libc.ioctl w fd cmd (ptr p)).0
            ≡ errno_of (cortex_forge_ioctl user clock abi (dev w) cmd (mem w) p (now w)).0)
      → (w : libc.World) (h : Handle) (p : ℕ)
      → ((cortex_forge_submit_task libc abi w (some h) (suc p)).0 ≡ fail enotty)
        × ((cortex_forge_query_task libc abi w (some h) (suc p)).0 ≡ fail enotty)
        × ((cortex_forge_get_accel_info libc abi w (some h) (suc p)).0 ≡ fail enotty)
  unfolding cortex_forge_submit_task cortex_forge_query_task cortex_forge_get_accel_info
  library_calls_fail dev mem now driver w h p =
      (refused submit refl, refused query refl, refused info refl)
    where
      locked : libc.World
      locked = libc.lock w h.lock

      refused :
          (l : LibCall)
          → carries_struct l ≡ true
          → ret_of (libc.ioctl locked h.fd (lib_code abi l) (ptr (suc p))).0 ≡ fail enotty
      refused l c = ap ret_of (
          driver locked h.fd (lib_code abi l) (suc p)
          ∙ ap (λ (r : Outcome user clock abi). errno_of r.0)
              (library_structs_refused user clock abi (dev locked) (mem locked) (suc p) (now locked)
                l c))

-- The library's cancel, power and version commands are the driver's.
pub library_values_agree :
    (abi : IoctlAbi)
    → (lib_code abi cancel ≡ code abi cancel_task)
      × (lib_code abi power ≡ code abi set_power)
      × (lib_code abi version ≡ code abi get_version)
library_values_agree abi = (refl, refl, refl)
