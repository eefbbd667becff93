-- ===== src/Chardev/Calls.antt =====
-- Sequences of ioctls: what a query sees after a submission and after a cancellation.
use cortex_forge_driver.Chardev.{
  Outcome, ioctl_submit_task, ioctl_query_task, ioctl_cancel_task, copied_out,
}
use cortex_forge_driver.Task.{
  task_cancel, free, cancelled, failed, complete, max_tasks, running, find_task, pending, is_used,
  task_query, Task, status_of, TaskState,
}
use cortex_forge_driver.Kernel.{task_desc, task_status, u32, Clock, UserMemory}
use cortex_forge_driver.Base.{
  if◌then◌else◌, inr, inl, Option-cases, ==-ne, ◌==◌, if_false, ◌∙◌, ap, false, ◌≢◌, suc, none,
  refl, ◌<◌, arith, some, ◌+◌, true, ◌≡◌, ℕ,
}
use cortex_forge_driver.Uapi.Ioctl.{IoctlAbi}
use cortex_forge_driver.Uapi.{
  task_cancelled, task_failed, task_complete, TaskStatus, TaskDesc, task_running, task_pending,
}
use cortex_forge_driver.Device.{Dev, task_of}
use cortex_forge_driver.Task.Slots.{IsInOrder}
use cortex_forge_driver.Chardev.Submit.{
  accept-task, accept-IsInOrder, accept, ioctl_submit_task_accepted, IsAcceptable,
}
use cortex_forge_driver.Errno.{Ret, ecanceled, efault, enoent, fail, ok}
use cortex_forge_driver.Chardev.Spec.{as_submitted, as_cancelled, report}
use cortex_forge_driver.Task.Lookup.{find_task-matches, find_task-task_cancel, task_cancel_ret}
use cortex_forge_driver.Chardev.Frame.{cancel_in}
use cortex_forge_driver.Task.Issue.{find_task_issued}

-- The status value that the header gives to a state.
abbrev pub uapi_status : TaskState → ℕ
uapi_status pending = task_pending
uapi_status running = task_running
uapi_status complete = task_complete
uapi_status failed = task_failed
uapi_status cancelled = task_cancelled
uapi_status free = task_pending

-- The status that a query reports for a task in use is one more than the header's constant for the
-- task's state: a complete task reads as CORTEX_FORGE_TASK_FAILED, a pending one as RUNNING.
pub status_of_off_by_one :
    (clock : Clock) (t : Task)
    → is_used t.state ≡ true
    → (status_of clock t).status ≡ uapi_status t.state + 1
unfolding status_of
status_of_off_by_one clock t used = ground arith

module _ (user : UserMemory) (clock : Clock) (abi : IoctlAbi) where
  open user use {Mem, copy_from_user, copy_to_user}

  pub query_found :
      (d : Dev) (m : Mem) (uarg : ℕ) (status : TaskStatus) (t : Task)
      → copy_from_user task_status m uarg ≡ some status
      → find_task status.task_id d.pool.tasks ≡ some t
      → ioctl_query_task user clock abi d m uarg
        ≡ copied_out user clock abi d (copy_to_user task_status m uarg (status_of clock t))
  unfolding ioctl_query_task task_query
  query_found d m uarg status t read found = rw (read, ioctl_query_task, found, task_query) refl

  query_missing :
      (d : Dev) (m : Mem) (uarg : ℕ) (status : TaskStatus)
      → copy_from_user task_status m uarg ≡ some status
      → find_task status.task_id d.pool.tasks ≡ none
      → ioctl_query_task user clock abi d m uarg ≡ (fail enoent, d, m)
  unfolding ioctl_query_task task_query
  query_missing d m uarg status read found = rw (read, ioctl_query_task, found, task_query) refl

  -- Over a pool in order with a task id left, submitting an acceptable descriptor that can be read and
  -- written back returns 0. The descriptor in the user's memory then holds the next id and is else as it
  -- was, the slot holds the fields of the descriptor, pending, under that id, with the moment of the
  -- submission and nothing else set, and a query of the id copies out that id, status 1, error 0 and the
  -- microseconds from the submission to jiffies 0, wrapped around.
  pub submit_then_query :
      (d : Dev) (m m' later : Mem) (uarg ustatus now : ℕ) (desc : TaskDesc) (status : TaskStatus)
      → IsInOrder d.pool
      → copy_from_user task_desc m uarg ≡ some desc
      → IsAcceptable desc
      → d.pool.next_task_id < max_tasks
      → copy_to_user task_desc m uarg (record desc { task_id = suc d.pool.next_task_id })
        ≡ (false, m')
      → copy_from_user task_status later ustatus ≡ some status
      → status.task_id ≡ suc d.pool.next_task_id
      → let (ret, d', after) = ioctl_submit_task user clock abi d m uarg now in
        let (fault, answer) =
          copy_to_user task_status later ustatus
            (report clock.hz (suc d.pool.next_task_id) 1 now 0 ok) in
        (ret ≡ ok)
        × (copy_from_user task_desc after uarg
            ≡ some (record desc { task_id = suc d.pool.next_task_id }))
        × (task_of d' d.pool.next_task_id ≡ as_submitted desc (suc d.pool.next_task_id) now)
        × (ioctl_query_task user clock abi d' later ustatus
            ≡ (if fault then fail efault else ok, d', answer))
  unfolding status_of
  submit_then_query d m m' later uarg ustatus now desc status v read acc lt stored asked same =
      rw (ioctl_submit_task_accepted user clock abi d m uarg now desc v read acc lt, stored)
        (
          refl,
          user.read_back task_desc m m' uarg _ stored,
          accept-task d desc now lt v,
          query_found (accept d desc now) later ustatus status _ asked found,
        )
    where
      found :
          find_task status.task_id (accept d desc now).pool.tasks
          ≡ some (as_submitted desc (suc d.pool.next_task_id) now)
      found =
          ap (λ id. find_task id (accept d desc now).pool.tasks) same
          ∙ find_task_issued (accept d desc now).pool (accept-IsInOrder d desc now lt v)
              d.pool.next_task_id (omega arith)
          ∙ ap some (accept-task d desc now lt v)

  cancel_device :
      (d : Dev) (m : Mem) (uarg id : ℕ)
      → copy_from_user u32 m uarg ≡ some id
      → ioctl_cancel_task user clock abi d m uarg
        ≡ ((task_cancel id d.pool.tasks).0, cancel_in d id, m)
  unfolding ioctl_cancel_task
  cancel_device d m uarg id read = rw (read, ioctl_cancel_task) refl

  -- A cancellation of an id that a lookup finds in use returns 0 and leaves the memory alone. On the
  -- device it leaves, a lookup of the id finds the same task with state CANCELLED, error -ECANCELED and
  -- its completion signalled, and a query of the id copies out that id, status 5, error -ECANCELED and
  -- the microseconds between the two times that the task had.
  pub cancel_then_query :
      (d : Dev) (m later : Mem) (uarg ustatus id : ℕ) (t : Task) (status : TaskStatus)
      → copy_from_user u32 m uarg ≡ some id
      → find_task id d.pool.tasks ≡ some t
      → copy_from_user task_status later ustatus ≡ some status
      → status.task_id ≡ id
      → let (ret, d', after) = ioctl_cancel_task user clock abi d m uarg in
        let (fault, answer) =
          copy_to_user task_status later ustatus
            (report clock.hz id 5 t.submit_jiffies t.complete_jiffies (fail ecanceled)) in
        (ret ≡ ok)
        × (after ≡ m)
        × (find_task id d'.pool.tasks ≡ some (as_cancelled t))
        × (ioctl_query_task user clock abi d' later ustatus
            ≡ (if fault then fail efault else ok, d', answer))
  unfolding status_of
  cancel_then_query d m later uarg ustatus id t status read found asked same =
      rw (cancel_device d m uarg id read) (
        task_cancel_ret id d.pool.tasks
            ∙ ap (λ o. elim o [ none ↦ fail enoent | some _ ↦ ok ]) found,
        refl,
        now_cancelled,
        query_found (cancel_in d id) later ustatus status (as_cancelled t) asked
              (ap (λ n. find_task n (cancel_in d id).pool.tasks) same ∙ now_cancelled)
            ∙ ap
                (λ n. copied_out user clock abi (cancel_in d id) (
                  copy_to_user task_status later ustatus
                    (report clock.hz n 5 t.submit_jiffies t.complete_jiffies (fail ecanceled))))
                its_id,
      )
    where
      now_cancelled : find_task id (cancel_in d id).pool.tasks ≡ some (as_cancelled t)
      now_cancelled = find_task-task_cancel id id d.pool.tasks ∙ ground (arith, found)

      its_id : t.id ≡ id
      its_id = ground (arith, find_task-matches id d.pool.tasks {t = t} found)

  -- A cancellation changes no other query: for every other id it returns and stores what it does on
  -- the device before the cancellation.
  pub cancel_then_query_other :
      (d : Dev) (m later : Mem) (uarg ustatus id : ℕ) (status : TaskStatus)
      → copy_from_user u32 m uarg ≡ some id
      → copy_from_user task_status later ustatus ≡ some status
      → status.task_id ≢ id
      → let (ret, d', after) = ioctl_cancel_task user clock abi d m uarg in
        let (ret', _, answer') = ioctl_query_task user clock abi d' later ustatus in
        let (ret₀, _, answer) = ioctl_query_task user clock abi d later ustatus in
        (ret' ≡ ret₀) × (answer' ≡ answer)
  cancel_then_query_other d m later uarg ustatus id status read asked ne =
      rw (cancel_device d m uarg id read)
        (elim (Option-cases (find_task status.task_id d.pool.tasks)) [
          | inl e ↦
              answers (query_missing (cancel_in d id) later ustatus status asked (same ∙ e))
                (query_missing d later ustatus status asked e)
          | inr (t, e) ↦
              answers (query_found (cancel_in d id) later ustatus status t asked (same ∙ e))
                (query_found d later ustatus status t asked e)
        ])
    where
      same :
          find_task status.task_id (task_cancel id d.pool.tasks).1
          ≡ find_task status.task_id d.pool.tasks
      same =
          find_task-task_cancel id status.task_id d.pool.tasks
          ∙ if_false (status.task_id == id) _ _ (==-ne status.task_id id ne)

      answers :
          {r : Ret} {d' e : Dev} {y : Mem} {q q' : Outcome user clock abi}
          → q ≡ (r, d', y)
          → q' ≡ (r, e, y)
          → (q.0 ≡ q'.0) × (q.2 ≡ q'.2)
      answers h k = rw (h, k) (refl, refl)
