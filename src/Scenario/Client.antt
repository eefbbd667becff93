-- ===== src/Scenario/Client.antt =====
-- The library in a process of its own, whose descriptors are the ones that it has open, on the device
-- before any submission.
use cortex_forge_driver.Base.{
  ==_refl, if◌then◌else◌, replicate, ◌∙◌, ℕ, ◌≡◌, ap, refl, List, [], ◌∷◌, some, none, true, length,
  Option,
}
use cortex_forge_driver.Scenario.{user, clock, image}
use cortex_forge_driver.Scenario.Life.{submissions}
use cortex_forge_driver.Uapi.Ioctl.{linux_abi}
use cortex_forge_driver.Errno.{Errno, fail, enotty}
use cortex_forge_driver.Worker.{list_del}
use cortex_forge_driver.Library.{
  cortex_forge_get_accel_info, cortex_forge_query_task, cortex_forge_submit_task, Libc, Handle, Arg,
  ptr, local, cortex_forge_open, cortex_forge_close,
}
use cortex_forge_driver.Library.Refused.{errno_of, library_calls_fail}
use cortex_forge_driver.Library.Handles.{Descriptors, open_then_close}
use cortex_forge_driver.CString.{strncpy}
use cortex_forge_driver.Chardev.{cortex_forge_ioctl}

-- What the driver answers.
answer : ℕ → Arg → Option Errno
answer cmd (ptr p) =
    errno_of (cortex_forge_ioctl user clock linux_abi (submissions 0) cmd image p 0).0
answer cmd (local v) = none

-- The file is opened under the number of the files that are open.
abbrev process : Libc
process = record {
  World = List ℕ;
  open_file = λ w p. (some (length w), length w ∷ w);
  close = λ w fd. list_del fd w;
  calloc = λ w. (true, w);
  free = λ w. w;
  mutex_init = λ w. (0, w);
  mutex_destroy = λ w l. w;
  lock = λ w l. w;
  unlock = λ w l. w;
  ioctl = λ w fd cmd arg. (answer cmd arg, w);
}

list_del-head : (w rest : List ℕ) (fd : ℕ) → w ≡ fd ∷ rest → list_del fd w ≡ rest
list_del-head w rest fd e =
    ap (list_del fd) e ∙ ap (λ b. if b then rest else fd ∷ list_del fd rest) (==_refl fd)

process-Descriptors : Descriptors process
process-Descriptors = record {
  fds = λ w. w;
  open_none = λ w w' p e. cc;
  open_some = λ w w' p fd e. cc;
  close_last = λ w fd rest e. list_del-head w rest fd e;
  calloc_keeps = λ w. refl;
  free_keeps = λ w. refl;
  mutex_init_keeps = λ w. refl;
  mutex_destroy_keeps = λ w l. refl;
}

-- "/dev"
abbrev device_path : List ℕ
device_path = b'/' ∷ b'd' ∷ b'e' ∷ b'v' ∷ []

open_then_close_example :
    let (h, w') = cortex_forge_open process [] (some device_path) in
    cortex_forge_close process w' h ≡ []
unfolding process-Descriptors cortex_forge_close
open_then_close_example = open_then_close process process-Descriptors [] (some device_path)

-- The handle that an opening gives.
abbrev opened : Handle
opened = record { fd = 0; lock = 0; path = strncpy 255 device_path (replicate 256 0) }

library_calls_fail_example :
    ((cortex_forge_submit_task process linux_abi [] (some opened) 1).0 ≡ fail enotty)
    × ((cortex_forge_query_task process linux_abi [] (some opened) 1).0 ≡ fail enotty)
    × ((cortex_forge_get_accel_info process linux_abi [] (some opened) 1).0 ≡ fail enotty)
unfolding answer
library_calls_fail_example =
    library_calls_fail user clock linux_abi process (λ w. submissions 0) (λ w. image) (λ w. 0)
      (λ w fd cmd p. refl) [] opened 0
