-- ===== src/Library/Commands.antt =====
-- The ioctl numbers of lib/src/libcortex-forge.c, over the structs of lib/include/libcortex-forge.h,
-- which lack the driver's `reserved` fields.
use cortex_forge_driver.Base.{ℕ, List, [], ◌∷◌}
use cortex_forge_driver.Uapi.Layout.{Field, u32, u64}
use cortex_forge_driver.Uapi.Ioctl.{IoctlAbi, iow, ior, iowr, command}

abbrev pub lib_task_desc_fields : List Field
lib_task_desc_fields = u32 ∷ u32 ∷ u32 ∷ u32 ∷ u32 ∷ u64 ∷ u64 ∷ u32 ∷ u32 ∷ []

abbrev pub lib_task_status_fields : List Field
lib_task_status_fields = u32 ∷ u32 ∷ u64 ∷ u32 ∷ []

abbrev pub lib_accel_info_fields : List Field
lib_accel_info_fields = u32 ∷ u32 ∷ u32 ∷ u32 ∷ u32 ∷ u32 ∷ u64 ∷ u64 ∷ u32 ∷ []

pub data LibCall : Type 0 where
  submit query cancel info power version : LibCall

abbrev pub lib_code : IoctlAbi → LibCall → ℕ
lib_code abi submit = command abi iowr 1 lib_task_desc_fields
lib_code abi query = command abi iowr 2 lib_task_status_fields
lib_code abi cancel = command abi iow 3 (u32 ∷ [])
lib_code abi info = command abi ior 4 lib_accel_info_fields
lib_code abi power = command abi iow 5 (u32 ∷ [])
lib_code abi version = command abi ior 6 (u32 ∷ [])
