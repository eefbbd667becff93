-- ===== src/Errno.antt =====
-- The errno values that the driver and its library name, and the C convention "0 or -errno".
use cortex_forge_driver.Base.{ℕ}

-- `other` stands for what the kernel's own functions may return.
pub data Errno : Type 0 where
  einval efault enomem enoent enotty ebusy etimedout e2big ecanceled : Errno
  other : ℕ → Errno

pub data Ret : Type 0 where
  ok : Ret
  fail : Errno → Ret
