-- ===== src/Scenario/Driver.antt =====
-- The ioctl handler and the workers, at the devices that one submission leads to.
use cortex_forge_driver.Base.{
  if◌then◌else◌, false, Bool, ◌∷◌, ◌++◌, true, length, [], sym, ◌+◌, ℕ, suc, ◌≡◌, ◌≢◌, arith, ap,
  refl, some,
}
use cortex_forge_driver.Scenario.{read_user, user, clock, desc, image, asking, Cell, desc_cell}
use cortex_forge_driver.Uapi.Ioctl.{linux_command_le, linux_abi}
use cortex_forge_driver.Scenario.Life.{
  submissions, next_task_id-submissions, desc-IsAcceptable, submissions-IsInOrder,
}
use cortex_forge_driver.Chardev.Dispatch.{
  fields, number, dir, code_lem, Command, code, cortex_forge_ioctl_unknown, submit_task,
}
use cortex_forge_driver.Chardev.Calls.{
  uapi_status, submit_then_query, cancel_then_query, status_of_off_by_one,
}
use cortex_forge_driver.SingleFile.Ioctl as Single
use cortex_forge_driver.Device.{accel_at, init_device, Dev, task_of}
use cortex_forge_driver.Chardev.{
  Outcome, ioctl_query_task, ioctl_cancel_task, cortex_forge_ioctl, ioctl_submit_task,
}
use cortex_forge_driver.Task.{pending, cancelled, zero_task, cancel_task, status_of, find_task}
use cortex_forge_driver.Chardev.Change.{Change, ioctl_changes}
use cortex_forge_driver.Chardev.Spec.{report, as_submitted, as_cancelled}
use cortex_forge_driver.Errno.{ecanceled}
use cortex_forge_driver.Task.Slots.{IsInOrder}
use cortex_forge_driver.Errno.{efault, enotty, einval, fail, ok}
use cortex_forge_driver.Task.Issue.{find_task_issued}
use cortex_forge_driver.Chardev.Errors.{cortex_forge_ioctl_fails}
use cortex_forge_driver.Kernel.{Val, Struct, UserMemory, task_status, task_desc}
use cortex_forge_driver.Chardev.Submit.{ioctl_submit_task_rejected}
use cortex_forge_driver.SingleFile.Same.{single_file_ioctl}
use cortex_forge_driver.Accel.{num_accelerators, accel_init}
use cortex_forge_driver.Library.{cortex_forge_strerror}
use cortex_forge_driver.Library.Messages.{strerror_total}
use cortex_forge_driver.Chardev.Fault.{fault_keeps_task}

-- The device before and after the first submission.
abbrev first : Dev
first = submissions 0

abbrev second : Dev
second = submissions 1

first-IsInOrder : IsInOrder first.pool
first-IsInOrder = submissions-IsInOrder 0 (omega arith)

second-IsInOrder : IsInOrder second.pool
second-IsInOrder = submissions-IsInOrder 1 (omega arith)

-- The first task, as a lookup of id 1 finds it.
found_first : find_task 1 second.pool.tasks ≡ some (task_of second 0)
found_first =
    find_task_issued second.pool second-IsInOrder 0 (omega (arith, next_task_id-submissions 1))

submit_then_query_example :
    let (ret, d', after) = ioctl_submit_task user clock linux_abi first image 1 0 in
    let (fault, answer) =
      user.copy_to_user task_status image 2
        (report clock.hz (suc first.pool.next_task_id) 1 0 0 ok) in
    (ret ≡ ok)
    × (user.copy_from_user task_desc after 1
        ≡ some (record desc { task_id = suc first.pool.next_task_id }))
    × (task_of d' first.pool.next_task_id ≡ as_submitted desc (suc first.pool.next_task_id) 0)
    × (ioctl_query_task user clock linux_abi d' image 2
        ≡ (if fault then fail efault else ok, d', answer))
submit_then_query_example =
    submit_then_query user clock linux_abi first image
      (user.copy_to_user task_desc image 1
        (record desc { task_id = suc first.pool.next_task_id })).1
      image 1 2 0 desc (asking 1) first-IsInOrder refl desc-IsAcceptable
      (omega (arith, next_task_id-submissions 0)) refl refl
      (ap suc (sym (next_task_id-submissions 0)))

cancel_then_query_example :
    let t = task_of second 0 in
    let (ret, d', after) = ioctl_cancel_task user clock linux_abi second image 4 in
    let (fault, answer) =
      user.copy_to_user task_status image 2
        (report clock.hz 1 5 t.submit_jiffies t.complete_jiffies (fail ecanceled)) in
    (ret ≡ ok)
    × (after ≡ image)
    × (find_task 1 d'.pool.tasks ≡ some (as_cancelled t))
    × (ioctl_query_task user clock linux_abi d' image 2
        ≡ (if fault then fail efault else ok, d', answer))
cancel_then_query_example =
    cancel_then_query user clock linux_abi second image image 4 2 1 (task_of second 0) (asking 1)
      refl found_first refl refl

status_of_off_by_one_example :
    (status_of clock (cancel_task zero_task)).status ≡ uapi_status cancelled + 1
status_of_off_by_one_example = status_of_off_by_one clock (cancel_task zero_task) refl

ioctl_changes_example :
    let (ret, d', _) =
      cortex_forge_ioctl user clock linux_abi first (code linux_abi submit_task) image 1 0 in
    Change user clock linux_abi first (code linux_abi submit_task) image 1 0 ret d'
ioctl_changes_example =
    ioctl_changes user clock linux_abi first image 1 0 first-IsInOrder (code linux_abi submit_task)

strerror_total_example :
    let ret = (cortex_forge_ioctl user clock linux_abi first 5 image 1 0).0 in
    cortex_forge_strerror (λ _. "Error") ret ≡ cortex_forge_strerror (λ _. "Fehler") ret
strerror_total_example =
    strerror_total user clock linux_abi first (λ _. "Error") (λ _. "Fehler") 5 image 1 0

not_a_code : (c : Command) → 5 ≢ code linux_abi c
not_a_code c e =
    absurd (omega (arith, e, code_lem linux_abi c, linux_command_le (dir c) (number c) (fields c)))

-- Number 5 is no command, so it fails with ENOTTY.
ioctl_fails_example :
    ((cortex_forge_ioctl user clock linux_abi first 5 image 1 0).1 ≡ first)
    × ((cortex_forge_ioctl user clock linux_abi first 5 image 1 0).2 ≡ image)
ioctl_fails_example =
    cortex_forge_ioctl_fails user clock linux_abi first 5 image 1 0 enotty first-IsInOrder
      (ap (λ (r : Outcome user clock linux_abi). r.0)
        (cortex_forge_ioctl_unknown user clock linux_abi first image 1 0 5 not_a_code))
      (λ e. cc)

-- A descriptor with a flag set.
abbrev flagged : ℕ → Cell
flagged _ = desc_cell (record desc { flags = 1 })

ioctl_submit_task_rejected_example :
    ioctl_submit_task user clock linux_abi first flagged 1 0 ≡ (fail einval, first, flagged)
ioctl_submit_task_rejected_example =
    ioctl_submit_task_rejected user clock linux_abi first flagged 1 0 (record desc { flags = 1 })
      refl (λ acc. absurd (omega (arith, acc.no_flags)))

single_file_ioctl_example :
    Single.cortex_forge_ioctl user clock linux_abi first (code linux_abi submit_task) image 1 0
    ≡ cortex_forge_ioctl user clock linux_abi first (code linux_abi submit_task) image 1 0
single_file_ioctl_example =
    single_file_ioctl user clock linux_abi first (code linux_abi submit_task) image 1 0
      first-IsInOrder

never_written :
    (s : Struct) (m m' : ℕ → Cell) (a : ℕ) (v : Val s)
    → ◌≡◌ {A = Bool × (ℕ → Cell)} (true, m) (false, m')
    → read_user s m' a ≡ some v
never_written s m m' a v e = cc

-- A memory that can be read and not written.
abbrev read_only : UserMemory
read_only = record {
  Mem = ℕ → Cell;
  copy_from_user = read_user;
  copy_to_user = λ s m a v. (true, m);
  read_back = never_written;
}

three_first : length first.accelerators ≡ num_accelerators
unfolding submissions init_device accel_init
three_first = refl

fault_keeps_task_example :
    let (ret, d', m') = ioctl_submit_task read_only clock linux_abi first image 1 0 in
    (ret ≡ fail efault)
    × ((task_of d' first.pool.next_task_id).state ≡ pending)
    × ((accel_at d' 1).task_queue ≡ (accel_at first 1).task_queue ++ first.pool.next_task_id ∷ [])
    × (d'.pool.next_task_id ≡ suc first.pool.next_task_id)
fault_keeps_task_example =
    fault_keeps_task read_only clock linux_abi first image 1 0 desc first-IsInOrder three_first refl
      desc-IsAcceptable (omega (arith, next_task_id-submissions 0)) refl
