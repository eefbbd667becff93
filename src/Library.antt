-- ===== src/Library.antt =====
-- lib/src/libcortex-forge.c, the userspace library. The C library is an interface; a pointer that the
-- caller passes is an address, and 0 is NULL.
pub mod Commands
pub mod Handles
pub mod Messages
pub mod Refused
use cortex_forge_driver.Base.{
  ℕ, zero, suc, List, [], ◌∷◌, Option, none, some, Bool, true, false, ◌≡◌, replicate,
}
use cortex_forge_driver.Errno.{
  Errno, Ret, ok, fail, einval, efault, enomem, enoent, enotty, ebusy, etimedout, e2big, ecanceled,
  other,
}
use cortex_forge_driver.CString.{strncpy}
use cortex_forge_driver.Uapi.Ioctl.{IoctlAbi}
use Prim.Native.String.{String}
use Commands.{lib_code, submit, query, cancel, info, power, version}

-- What an ioctl is passed: a pointer of the caller's, or one to a local variable of that value.
pub data Arg : Type 0 where
  ptr : ℕ → Arg
  local : ℕ → Arg

-- The calls that the library makes. A failing `open` is `none`; a failing `ioctl` gives the errno that
-- it sets; `calloc` gives whether it returned memory. `open_fds` is what a process has open.
pub record Libc : Type 1 where
  pub World : Type 0
  pub open_file : World → List ℕ → Option ℕ × World
  pub close : World → ℕ → World
  pub calloc : World → Bool × World
  pub free : World → World
  pub mutex_init : World → ℕ × World
  pub mutex_destroy : World → ℕ → World
  pub lock : World → ℕ → World
  pub unlock : World → ℕ → World
  pub ioctl : World → ℕ → ℕ → Arg → Option Errno × World

pub record Handle : Type 0 where
  pub fd : ℕ
  pub lock : ℕ
  pub path : List ℕ

-- `r < 0 ? -errno : 0`.
abbrev pub ret_of : Option Errno → Ret
ret_of none = ok
ret_of (some e) = fail e

module _ (libc : Libc) where
  open libc use {World}

  -- The handle behind a descriptor, if calloc returned memory for it; `errno` on a failure is EINVAL for a NULL path and otherwise what
  -- the failing call set.
  abbrev pub new_handle : Bool → World → ℕ → List ℕ → Option Handle × World
  new_handle false w fd p = (none, libc.close w fd)
  new_handle true w fd p =
      let (mutex, w') = libc.mutex_init w in
      (some (record { fd = fd; lock = mutex; path = strncpy 255 p (replicate 256 0) }), w')

  unfoldable pub open_descriptor : List ℕ → Option ℕ × World → Option Handle × World
  open_descriptor p (none, w) = (none, w)
  open_descriptor p (some fd, w) = let (got, w') = libc.calloc w in new_handle got w' fd p

  unfoldable pub cortex_forge_open : World → Option (List ℕ) → Option Handle × World
  unfolding open_descriptor
  cortex_forge_open w none = (none, w)
  cortex_forge_open w (some p) = open_descriptor p (libc.open_file w p)

  unfoldable pub cortex_forge_close : World → Option Handle → World
  cortex_forge_close w none = w
  cortex_forge_close w (some h) = libc.free (libc.close (libc.mutex_destroy w h.lock) h.fd)

  -- The locked ioctl that each operation makes.
  unfoldable pub locked_ioctl : World → Handle → ℕ → Arg → Ret × World
  locked_ioctl w h cmd arg =
      let (r, w') = libc.ioctl (libc.lock w h.lock) h.fd cmd arg in
      (ret_of r, libc.unlock w' h.lock)

  -- An operation on a handle and a pointer that may not be NULL.
  unfoldable pub call_with : World → Option Handle → ℕ → ℕ → Ret × World
  unfolding locked_ioctl
  call_with w none cmd p = (fail einval, w)
  call_with w (some h) cmd zero = (fail einval, w)
  call_with w (some h) cmd (suc p) = locked_ioctl w h cmd (ptr (suc p))

  -- An operation on a handle and a value.
  unfoldable pub call_value : World → Option Handle → ℕ → ℕ → Ret × World
  unfolding locked_ioctl
  call_value w none cmd v = (fail einval, w)
  call_value w (some h) cmd v = locked_ioctl w h cmd (local v)

  module _ (abi : IoctlAbi) where
    unfoldable pub cortex_forge_submit_task : World → Option Handle → ℕ → Ret × World
    unfolding call_with
    cortex_forge_submit_task w h d = call_with w h (lib_code abi submit) d

    unfoldable pub cortex_forge_query_task : World → Option Handle → ℕ → Ret × World
    unfolding call_with
    cortex_forge_query_task w h s = call_with w h (lib_code abi query) s

    unfoldable pub cortex_forge_cancel_task : World → Option Handle → ℕ → Ret × World
    unfolding call_value
    cortex_forge_cancel_task w h id = call_value w h (lib_code abi cancel) id

    unfoldable pub cortex_forge_get_accel_info : World → Option Handle → ℕ → Ret × World
    unfolding call_with
    cortex_forge_get_accel_info w h i = call_with w h (lib_code abi info) i

    unfoldable pub cortex_forge_set_power : World → Option Handle → ℕ → Ret × World
    unfolding call_value
    cortex_forge_set_power w h m = call_value w h (lib_code abi power) m

    unfoldable pub cortex_forge_get_version : World → Option Handle → ℕ → Ret × World
    unfolding call_with
    cortex_forge_get_version w h v = call_with w h (lib_code abi version) v

-- `strerror` is the C library's. The argument is 0 or a negative errno.
unfoldable pub cortex_forge_strerror : (Errno → String) → Ret → String
cortex_forge_strerror strerror ok = "Success"
cortex_forge_strerror strerror (fail einval) = "Invalid argument"
cortex_forge_strerror strerror (fail efault) = "Bad address"
cortex_forge_strerror strerror (fail enomem) = "Out of memory"
cortex_forge_strerror strerror (fail enoent) = "Task not found"
cortex_forge_strerror strerror (fail enotty) = "Invalid ioctl command"
cortex_forge_strerror strerror (fail ebusy) = "Device busy"
cortex_forge_strerror strerror (fail etimedout) = "Operation timed out"
cortex_forge_strerror strerror (fail e2big) = "Data too large"
cortex_forge_strerror strerror (fail ecanceled) = "Task cancelled"
cortex_forge_strerror strerror (fail (other n)) = strerror (other n)
