-- ===== src/Debugfs.antt =====
-- src/cortex_forge_debugfs.c, which the build does not compile: the files of the driver in debugfs. The
-- root of debugfs is a list of entries; the path of an entry starts with the driver's directory or with
-- another name.
pub mod Dump
use cortex_forge_driver.Base.{
  ℕ, ◌≡◌, ◌++◌, List, [], ◌∷◌, Bool, true, false, Option, none, some, refl, ap, ◌∙◌, if◌then◌else◌,
  arith,
}
use cortex_forge_driver.Errno.{Errno, Ret, ok, fail}
use Prim.Native.String.{String}

pub data Root : Type 0 where
  drv_name : Root
  other : String → Root

pub record Entry : Type 0 where
  pub root : Root
  pub path : List String
  pub mode : ℕ

abbrev pub cortex_forge_fault_probe_fail_set : ℕ → Ret
cortex_forge_fault_probe_fail_set val = ok

-- The driver's entries, without and with CONFIG_CORTEX_FORGE_FAULT_INJECT.
abbrev pub fault_entries : Bool → List Entry
fault_entries false = []
fault_entries true =
    record { root = drv_name; path = "fault" ∷ []; mode = 0x1ED }
    ∷ record { root = drv_name; path = "fault" ∷ "probe_fail" ∷ []; mode = 0x80 }
    ∷ []

abbrev pub driver_entries : Bool → List Entry
driver_entries fault_inject =
    record { root = drv_name; path = []; mode = 0x1ED }
    ∷ record { root = drv_name; path = "registers" ∷ []; mode = 0x124 }
    ∷ fault_entries fault_inject

-- From what debugfs_create_dir returns for the driver's directory. The other calls are not checked, and
-- are taken to succeed.
unfoldable pub cortex_forge_debugfs_init : Bool → Option Errno → List Entry → Ret × List Entry
cortex_forge_debugfs_init fault_inject (some e) entries = (fail e, entries)
cortex_forge_debugfs_init fault_inject none entries = (ok, driver_entries fault_inject ++ entries)

abbrev pub is_driver : Root → Bool
is_driver drv_name = true
is_driver (other name) = false

-- debugfs_remove_recursive of the driver's directory.
unfoldable pub cortex_forge_debugfs_cleanup : List Entry → List Entry
cortex_forge_debugfs_cleanup [] = []
cortex_forge_debugfs_cleanup (e ∷ es) =
    let rest = cortex_forge_debugfs_cleanup es in if is_driver e.root then rest else e ∷ rest

-- No entry is the driver's.
abbrev pub has_driver : List Entry → Bool
has_driver [] = false
has_driver (e ∷ es) = if is_driver e.root then true else has_driver es

cleanup_others : (es : List Entry) → has_driver es ≡ false → cortex_forge_debugfs_cleanup es ≡ es
unfolding cortex_forge_debugfs_cleanup
cleanup_others [] h = refl
cleanup_others (e ∷ es) h = ground (arith, h, cleanup_others es)

-- Over a tree without entries of the driver, what init leaves, whether it succeeds or not, is the tree
-- that it found once cleanup has run.
debugfs_init_then_cleanup :
    (fault_inject : Bool) (mkdir : Option Errno) (es : List Entry)
    → has_driver es ≡ false
    → cortex_forge_debugfs_cleanup (cortex_forge_debugfs_init fault_inject mkdir es).1 ≡ es
unfolding cortex_forge_debugfs_init cortex_forge_debugfs_cleanup
debugfs_init_then_cleanup fault_inject (some e) es h = cleanup_others es h
debugfs_init_then_cleanup false none es h = cleanup_others es h
debugfs_init_then_cleanup true none es h = cleanup_others es h
