-- ===== src/Debugfs/Dump.antt =====
-- The register dump of src/cortex_forge_debugfs.c. `decimal` is the kernel's %u.
use cortex_forge_driver.Base.{ℕ}
use cortex_forge_driver.Errno.{Ret, ok}
use Prim.Native.String.{String, ◌++◌}

-- What the dump reads of the device.
pub record Counts : Type 0 where
  pub soc_name : String
  pub dla_count : ℕ
  pub pva_count : ℕ

abbrev pub cortex_forge_regs_show : (ℕ → String) → Counts → Ret × String
cortex_forge_regs_show decimal dev = (
  ok,
  "Cortex Forge Register Dump ("
      ++ dev.soc_name
      ++ ")\n"
      ++ "  Register offsets are unverified (TODO(HW))\n"
      ++ "  DLA instances: "
      ++ decimal dev.dla_count
      ++ "\n"
      ++ "  PVA instances: "
      ++ decimal dev.pva_count
      ++ "\n",
)
