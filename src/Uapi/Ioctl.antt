-- ===== src/Uapi/Ioctl.antt =====
-- The ioctl numbers of include/cortex_forge_uapi.h.
use cortex_forge_driver.Base.{◌≤◌, ℕ, ◌+◌, ◌*◌, ◌^◌, ◌<◌, ◌≡◌, ◌≢◌, List, [], ◌∷◌, arith}
use cortex_forge_driver.Uapi.Layout.{
  Field, u32, sizeof, task_desc_fields, task_status_fields, accel_info_fields,
  profile_metrics_fields,
}

-- The direction of an ioctl's argument: _IOW, _IOR, _IOWR.
pub data Dir : Type 0 where
  iow ior iowr : Dir

-- The kernel's _IOC. It packs its four fields into one number, so numbers that agree have the same
-- fields, as long as each is within its width.
pub record IoctlAbi : Type 0 where
  pub ioc : Dir → ℕ → ℕ → ℕ → ℕ
  pub ioc_injective :
      (d d' : Dir) (t t' n n' s s' : ℕ)
      → t < 2 ^ 8
      → t' < 2 ^ 8
      → n < 2 ^ 8
      → n' < 2 ^ 8
      → s < 2 ^ 14
      → s' < 2 ^ 14
      → ioc d t n s ≡ ioc d' t' n' s'
      → (d ≡ d') × (t ≡ t') × (n ≡ n') × (s ≡ s')

abbrev pub magic : ℕ
magic = 0xCF

module _ (abi : IoctlAbi) where
  pub command : Dir → ℕ → List Field → ℕ
  command d nr fields = abi.ioc d magic nr (sizeof fields)

  abbrev pub submit_task : ℕ
  submit_task = command iowr 1 task_desc_fields

  abbrev pub query_task : ℕ
  query_task = command iowr 2 task_status_fields

  abbrev pub cancel_task : ℕ
  cancel_task = command iow 3 (u32 ∷ [])

  abbrev pub get_accel_info : ℕ
  get_accel_info = command ior 4 accel_info_fields

  abbrev pub set_power : ℕ
  set_power = command iow 5 (u32 ∷ [])

  abbrev pub get_version : ℕ
  get_version = command ior 6 (u32 ∷ [])

  abbrev pub get_profile : ℕ
  get_profile = command ior 7 profile_metrics_fields

  abbrev pub set_accel : ℕ
  set_accel = command iow 8 (u32 ∷ [])

  -- Two commands with different numbers, or structs of different sizes, differ.
  pub command_ne_of_nr :
      (d d' : Dir) (nr nr' : ℕ) (fs fs' : List Field)
      → nr < 2 ^ 8
      → nr' < 2 ^ 8
      → sizeof fs < 2 ^ 14
      → sizeof fs' < 2 ^ 14
      → nr ≢ nr'
      → command d nr fs ≢ command d' nr' fs'
  unfolding command
  command_ne_of_nr d d' nr nr' fs fs' a b s t ne e =
      ne
        (abi.ioc_injective d d' magic magic nr nr' (sizeof fs) (sizeof fs') (omega arith)
          (omega arith) a b s t e).2

  pub command_ne_of_size :
      (d d' : Dir) (nr nr' : ℕ) (fs fs' : List Field)
      → nr < 2 ^ 8
      → nr' < 2 ^ 8
      → sizeof fs < 2 ^ 14
      → sizeof fs' < 2 ^ 14
      → sizeof fs ≢ sizeof fs'
      → command d nr fs ≢ command d' nr' fs'
  unfolding command
  command_ne_of_size d d' nr nr' fs fs' a b s t ne e =
      ne
        (abi.ioc_injective d d' magic magic nr nr' (sizeof fs) (sizeof fs') (omega arith)
          (omega arith) a b s t e).3

-- The encoding of the kernel's asm-generic/ioctl.h, which has the property.
dir_code : Dir → ℕ
dir_code iow = 1
dir_code ior = 2
dir_code iowr = 3

pub linux_ioc : Dir → ℕ → ℕ → ℕ → ℕ
linux_ioc d t n s = dir_code d * 2 ^ 30 + s * 2 ^ 16 + t * 2 ^ 8 + n

dir_code_injective : (d d' : Dir) → dir_code d ≡ dir_code d' → d ≡ d'
unfolding dir_code
dir_code_injective d d' e = ground arith

dir_code_lt : (d : Dir) → dir_code d < 4
unfolding dir_code
dir_code_lt d = ground arith

pub linux_ioc_injective :
    (d d' : Dir) (t t' n n' s s' : ℕ)
    → t < 2 ^ 8
    → t' < 2 ^ 8
    → n < 2 ^ 8
    → n' < 2 ^ 8
    → s < 2 ^ 14
    → s' < 2 ^ 14
    → linux_ioc d t n s ≡ linux_ioc d' t' n' s'
    → (d ≡ d') × (t ≡ t') × (n ≡ n') × (s ≡ s')
unfolding linux_ioc
linux_ioc_injective d d' t t' n n' s s' a b c f g h e =
    (dir_code_injective d d' (omega arith), omega arith, omega arith, omega arith)

abbrev pub linux_abi : IoctlAbi
linux_abi = record { ioc = linux_ioc; ioc_injective = linux_ioc_injective }

dir_code_pos : (d : Dir) → 0 < dir_code d
unfolding dir_code
dir_code_pos d = ground arith

-- No command is small in this encoding.
pub linux_command_le :
    (d : Dir) (nr : ℕ) (fields : List Field) → 2 ^ 30 ≤ command linux_abi d nr fields
unfolding command linux_ioc
linux_command_le d nr fields = omega (arith, dir_code_pos d)
