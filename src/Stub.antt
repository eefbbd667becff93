-- ===== src/Stub.antt =====
-- src/cortex_forge_chardev.c, which the build does not compile: read, write and poll without an effect.
use cortex_forge_driver.Base.{ℕ, List}

-- What a read or a write returns, and the user's memory.
module _ {Mem : Type 0} where
  abbrev pub cortex_forge_read : (count : ℕ) → Mem → ℕ × Mem
  cortex_forge_read count m = (0, m)

  abbrev pub cortex_forge_write : (count : ℕ) → Mem → ℕ × Mem
  cortex_forge_write count m = (0, m)

-- A poll_wait without a wait queue adds nothing to the queues that the caller waits on; the mask is 0.
abbrev pub cortex_forge_poll : List ℕ → ℕ × List ℕ
cortex_forge_poll waits = (0, waits)
