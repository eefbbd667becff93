-- ===== src/Library/Handles.antt =====
-- Opening and closing a handle, and calls without one.
use cortex_forge_driver.Library.{
  Libc, Handle, cortex_forge_open, cortex_forge_close, open_descriptor, new_handle,
  cortex_forge_submit_task, cortex_forge_query_task, cortex_forge_get_accel_info,
  cortex_forge_get_version,
}
use cortex_forge_driver.CString.{text_of, take, IsText, text_of-strncpy}
use cortex_forge_driver.Base.{
  zero, arith, false, true, ◌∙◌, inr, inl, suc, ◌⊎◌, refl, none, ◌∷◌, ◌≡◌, some, Bool, ℕ, List,
  Option,
}
use cortex_forge_driver.Uapi.Ioctl.{IoctlAbi}
use cortex_forge_driver.Errno.{einval, fail}

-- What the C library promises about the descriptors that a process has open.
pub record Descriptors (libc : Libc) : Type 0 where
  pub fds : libc.World → List ℕ
  pub open_none :
      (w w' : libc.World) (p : List ℕ) → libc.open_file w p ≡ (none, w') → fds w' ≡ fds w
  pub open_some :
      (w w' : libc.World) (p : List ℕ) (fd : ℕ)
      → libc.open_file w p ≡ (some fd, w')
      → fds w' ≡ fd ∷ fds w
  pub close_last :
      (w : libc.World) (fd : ℕ) (rest : List ℕ) → fds w ≡ fd ∷ rest → fds (libc.close w fd) ≡ rest
  pub calloc_keeps : (w : libc.World) → fds (libc.calloc w).1 ≡ fds w
  pub free_keeps : (w : libc.World) → fds (libc.free w) ≡ fds w
  pub mutex_init_keeps : (w : libc.World) → fds (libc.mutex_init w).1 ≡ fds w
  pub mutex_destroy_keeps : (w : libc.World) (l : ℕ) → fds (libc.mutex_destroy w l) ≡ fds w

module _ (libc : Libc) (laws : Descriptors libc) where
  open laws use {
    fds, open_none, open_some, close_last, calloc_keeps, free_keeps, mutex_init_keeps,
    mutex_destroy_keeps,
  }

  close_descriptor :
      (p : List ℕ) (fd : ℕ) (w : libc.World) (rest : List ℕ) (got : Bool)
      → fds w ≡ fd ∷ rest
      → let (h, w') = new_handle libc got w fd p in fds (cortex_forge_close libc w' h) ≡ rest
  unfolding cortex_forge_close
  close_descriptor p fd w rest false e = close_last w fd rest e
  close_descriptor p fd w rest true e =
      free_keeps _ ∙ close_last _ fd rest (mutex_destroy_keeps _ _ ∙ mutex_init_keeps w ∙ e)

  open_close_descriptor :
      (p : List ℕ) (w : libc.World) (o : Option ℕ × libc.World)
      → libc.open_file w p ≡ o
      → let (h, w') = open_descriptor libc p o in fds (cortex_forge_close libc w' h) ≡ fds w
  unfolding open_descriptor
  open_close_descriptor p w (none, w') e = unfold cortex_forge_close in open_none w w' p e
  open_close_descriptor p w (some fd, w') e =
      close_descriptor p fd (libc.calloc w').1 (fds w) (libc.calloc w').0
        (calloc_keeps w' ∙ open_some w w' p fd e)

  -- Opening a handle and closing what came of it, a handle or NULL, leaves the process with the
  -- descriptors it had, provided that the C library's calls do with descriptors what they promise.
  pub open_then_close :
      (w : libc.World) (path : Option (List ℕ))
      → let (h, w') = cortex_forge_open libc w path in fds (cortex_forge_close libc w' h) ≡ fds w
  unfolding cortex_forge_open
  open_then_close w none = unfold cortex_forge_close in refl
  open_then_close w (some p) = open_close_descriptor p w (libc.open_file w p) refl

-- With no handle, or with a handle and a NULL pointer, submitting, querying and asking for the
-- information or the version return -EINVAL and call nothing.
null_arguments :
    (libc : Libc) (abi : IoctlAbi) (w : libc.World) (h : Option Handle) (p : ℕ)
    → (h ≡ none) ⊎ (p ≡ 0)
    → (cortex_forge_submit_task libc abi w h p ≡ (fail einval, w))
      × (cortex_forge_query_task libc abi w h p ≡ (fail einval, w))
      × (cortex_forge_get_accel_info libc abi w h p ≡ (fail einval, w))
      × (cortex_forge_get_version libc abi w h p ≡ (fail einval, w))
unfolding cortex_forge_submit_task cortex_forge_query_task cortex_forge_get_accel_info
    cortex_forge_get_version
null_arguments libc abi w none p n = (refl, refl, refl, refl)
null_arguments libc abi w (some h) zero n = (refl, refl, refl, refl)
null_arguments libc abi w (some h) (suc p) (inl n) = cc
null_arguments libc abi w (some h) (suc p) (inr n) = absurd (omega arith)

path_of_handle :
    (libc : Libc) (p : List ℕ) (fd : ℕ) (w w' : libc.World) (got : Bool) {h : Handle}
    → IsText p
    → new_handle libc got w fd p ≡ (some h, w')
    → text_of h.path ≡ take 255 p
path_of_handle libc p fd w w' false {h} text e = cc
path_of_handle libc p fd w w' true {h} text e = cc (text_of-strncpy 255 p text)

path_of_opened :
    (libc : Libc) (p : List ℕ) (o : Option ℕ × libc.World) (w' : libc.World) {h : Handle}
    → IsText p
    → open_descriptor libc p o ≡ (some h, w')
    → text_of h.path ≡ take 255 p
unfolding open_descriptor
path_of_opened libc p (none, w) w' {h} text e = cc
path_of_opened libc p (some fd, w) w' {h} text e =
    path_of_handle libc p fd (libc.calloc w).1 w' (libc.calloc w).0 text e

-- When an opening gives a handle, the path in it is the path that was opened, a text without NUL
-- bytes, cut to 255 bytes.
pub open_path :
    (libc : Libc) (w w' : libc.World) (p : List ℕ) {h : Handle}
    → IsText p
    → cortex_forge_open libc w (some p) ≡ (some h, w')
    → text_of h.path ≡ take 255 p
unfolding cortex_forge_open
open_path libc w w' p text e = path_of_opened libc p (libc.open_file w p) w' text e
