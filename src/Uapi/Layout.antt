-- ===== src/Uapi/Layout.antt =====
-- The C layout of the structs of include/cortex_forge_uapi.h and of lib/include/libcortex-forge.h on
-- a 64-bit target: a scalar is aligned to its size, and a struct is padded to its largest alignment.
use cortex_forge_driver.Base.{ℕ, ◌+◌, ◌-◌, ◌*◌, ◌%◌, List, [], ◌∷◌, ◌≡◌, refl, if◌then◌else◌, leb}

-- A field: the bytes of its scalar, and how many of them it is (1, or an array's length).
pub record Field : Type 0 where
  pub width : ℕ
  pub times : ℕ

abbrev pub u32 : Field
u32 = record { width = 4; times = 1 }

abbrev pub u64 : Field
u64 = record { width = 8; times = 1 }

abbrev pub u32s : ℕ → Field
u32s n = record { width = 4; times = n }

abbrev pub u64s : ℕ → Field
u64s n = record { width = 8; times = n }

-- The least multiple of `a` that is not below `n`.
abbrev pub align_up : ℕ → ℕ → ℕ
align_up n a = n + (a - n % a) % a

-- The offset behind the last field.
abbrev pub end_offset : ℕ → List Field → ℕ
end_offset o [] = o
end_offset o (f ∷ fs) = end_offset (align_up o f.width + f.width * f.times) fs

abbrev pub alignment : List Field → ℕ
alignment [] = 1
alignment (f ∷ fs) = let rest = alignment fs in if leb f.width rest then rest else f.width

unfoldable pub sizeof : List Field → ℕ
sizeof fs = align_up (end_offset 0 fs) (alignment fs)

-- The structs of include/cortex_forge_uapi.h.
abbrev pub task_desc_fields : List Field
task_desc_fields = u32 ∷ u32 ∷ u32 ∷ u32 ∷ u32 ∷ u64 ∷ u64 ∷ u32 ∷ u32 ∷ u64s 4 ∷ []

abbrev pub task_status_fields : List Field
task_status_fields = u32 ∷ u32 ∷ u64 ∷ u32 ∷ u32s 3 ∷ []

abbrev pub accel_info_fields : List Field
accel_info_fields = u32 ∷ u32 ∷ u32 ∷ u32 ∷ u32 ∷ u32 ∷ u64 ∷ u64 ∷ u32 ∷ u32s 3 ∷ []

abbrev pub profile_metrics_fields : List Field
profile_metrics_fields = u64 ∷ u64 ∷ u64 ∷ u64 ∷ u32 ∷ u32 ∷ u64s 4 ∷ []

sizes :
    (sizeof task_desc_fields ≡ 80)
    × (sizeof task_status_fields ≡ 32)
    × (sizeof accel_info_fields ≡ 56)
    × (sizeof profile_metrics_fields ≡ 72)
unfolding sizeof
sizes = (refl, refl, refl, refl)
