-- ===== src/SingleFile/Same.antt =====
-- The driver in one file answers every ioctl as the driver that is built.
use cortex_forge_driver.SingleFile
use cortex_forge_driver.SingleFile.Ioctl.{
  case_submitted, case_allocated, case_desc, case_submit_task, case_query_task, case_cancel_task,
  case_get_accel_info, case_set_power, case_get_version, case_get_profile, case_set_accel,
  copy_desc,
}
use cortex_forge_driver.SingleFile.Ioctl as Single
use cortex_forge_driver.SingleFile.Loops.{cancel_loop_lem, query_loop_lem, answer, paired}
use cortex_forge_driver.Base.{
  ℕ, List, [], ◌∷◌, ◌≡◌, ◌<◌, refl, ap, sym, ◌∙◌, arith, Option, none, some, dec_lt, leb, ltb, ◌==◌,
  if◌then◌else◌,
}
use cortex_forge_driver.Errno.{Ret, ok, fail, einval, e2big}
use cortex_forge_driver.Uapi.{TaskDesc}
use cortex_forge_driver.Uapi.Ioctl.{IoctlAbi}
use cortex_forge_driver.Kernel.{UserMemory, Clock, task_desc, task_status, u32}
use cortex_forge_driver.Task.{
  Task, Pool, task_alloc, task_free, task_query, task_cancel, alloc_head, find_task, max_tasks,
}
use cortex_forge_driver.Task.Slots.{IsInOrder, allocated}
use cortex_forge_driver.Task.Issue.{task_alloc-some, task_alloc-none, task_at_filled}
use cortex_forge_driver.Device.{Dev, task_submit, set_task, task_of}
use cortex_forge_driver.Chardev.{
  Outcome, with_pool, fill, submitted, submit_allocated, submit_desc, ioctl_submit_task,
  ioctl_query_task, ioctl_cancel_task, ioctl_get_accel_info, ioctl_set_power, ioctl_get_version,
  ioctl_get_profile, ioctl_set_accel, cortex_forge_ioctl, max_size,
}

alloc_first-same :
    (d : Dev) (free_tasks : List ℕ)
    → SingleFile.alloc_first d free_tasks
      ≡ ((alloc_head d.pool free_tasks).0, with_pool d (alloc_head d.pool free_tasks).1)
unfolding SingleFile.alloc_first alloc_head
alloc_first-same d [] = refl
alloc_first-same d (i ∷ rest) = refl

task_alloc-same :
    (d : Dev) → SingleFile.task_alloc d ≡ ((task_alloc d.pool).0, with_pool d (task_alloc d.pool).1)
unfolding SingleFile.task_alloc task_alloc
task_alloc-same d = alloc_first-same d d.pool.free_tasks

task_submit-same :
    (d : Dev) (i now : ℕ)
    → SingleFile.task_submit d i now ≡ task_submit d i (task_of d i).accel_type now
unfolding SingleFile.task_submit task_submit
task_submit-same d i now = refl

task_cancel-same :
    (d : Dev) (task_id : ℕ)
    → IsInOrder d.pool
    → SingleFile.task_cancel d task_id ≡ paired d [] (task_cancel task_id d.pool.tasks)
unfolding SingleFile.task_cancel
task_cancel-same d task_id v =
    ap (λ n. SingleFile.cancel_loop task_id n 0 d) (sym v.size)
    ∙ cancel_loop_lem task_id d [] d.pool.tasks 0 refl

option_same {ℓ κ} :
    {A : Type ℓ} {B : Type κ} (o : Option A) (x : B) (f g : A → B)
    → ((a : A) → f a ≡ g a)
    → elim o [ none ↦ x | some a ↦ f a ] ≡ elim o [ none ↦ x | some a ↦ g a ]
option_same none x f g h = refl
option_same (some a) x f g h = h a

module _ (user : UserMemory) (clock : Clock) (abi : IoctlAbi) where
  open user use {Mem}

  answer-same :
      (m : Mem) (ustatus task_id : ℕ) (ts : List Task)
      → answer user clock m ustatus (find_task task_id ts)
        ≡ task_query user clock ts task_id m ustatus
  unfolding task_query
  answer-same m ustatus task_id ts =
      elim (find_task task_id ts)
        as (λ o. answer user clock m ustatus o ≡ elim o [
          | none ↦ answer user clock m ustatus none
          | some t ↦ answer user clock m ustatus (some t)
        ]) [ none ↦ refl | some t ↦ refl ]

  task_query-same :
      (d : Dev) (task_id : ℕ) (m : Mem) (ustatus : ℕ)
      → IsInOrder d.pool
      → SingleFile.task_query user clock d task_id m ustatus
        ≡ task_query user clock d.pool.tasks task_id m ustatus
  unfolding SingleFile.task_query
  task_query-same d task_id m ustatus v =
      ap (λ n. SingleFile.query_loop user clock task_id m ustatus n 0 d) (sym v.size)
      ∙ query_loop_lem user clock task_id m ustatus d [] d.pool.tasks 0 refl refl
      ∙ answer-same m ustatus task_id d.pool.tasks

  submitted-same :
      (i : ℕ) (desc : TaskDesc) (m : Mem) (uarg : ℕ) (r : Ret × Dev)
      → case_submitted user clock abi i desc m uarg r ≡ submitted user clock abi i desc m uarg r
  unfolding SingleFile.task_free task_free
  submitted-same i desc m uarg (ok, d) = refl
  submitted-same i desc m uarg (fail e, d) = refl

  allocated-same :
      (d : Dev) (desc : TaskDesc) (m : Mem) (uarg now : ℕ)
      → IsInOrder d.pool
      → case_allocated user clock abi desc m uarg now (SingleFile.task_alloc d)
        ≡ submit_allocated user clock abi d desc m uarg now (task_alloc d.pool)
  unfolding submit_allocated
  allocated-same d desc m uarg now v =
      ap (case_allocated user clock abi desc m uarg now) (task_alloc-same d)
      ∙ elim (dec_lt d.pool.next_task_id max_tasks) [
        | no full ↦ both_none (task_alloc-none d.pool v (omega (arith, v.bound, full)))
        | yes room ↦ both_some room (task_alloc-some d.pool v room)
      ]
    where
      filled : TaskDesc → Dev
      filled desc = set_task (with_pool d (allocated d.pool)) d.pool.next_task_id (fill desc)

      both_none :
          {p : Pool}
          → task_alloc d.pool ≡ (none, p)
          → case_allocated user clock abi desc m uarg now
              ((task_alloc d.pool).0, with_pool d (task_alloc d.pool).1)
            ≡ submit_allocated user clock abi d desc m uarg now (task_alloc d.pool)
      both_none e = rw e refl

      both_some :
          d.pool.next_task_id < max_tasks
          → task_alloc d.pool ≡ (some d.pool.next_task_id, allocated d.pool)
          → case_allocated user clock abi desc m uarg now
              ((task_alloc d.pool).0, with_pool d (task_alloc d.pool).1)
            ≡ submit_allocated user clock abi d desc m uarg now (task_alloc d.pool)
      both_some room e = rw e (
          submitted-same d.pool.next_task_id desc m uarg _
          ∙ ap (submitted user clock abi d.pool.next_task_id desc m uarg) (
              task_submit-same (filled desc) d.pool.next_task_id now
              ∙ ap (λ (k : ℕ). task_submit (filled desc) d.pool.next_task_id k now)
                  (ap (λ (t : Task). t.accel_type) (task_at_filled d.pool (fill desc) room v))))

  desc-same :
      (d : Dev) (desc : TaskDesc) (m : Mem) (uarg now : ℕ)
      → IsInOrder d.pool
      → case_desc user clock abi d desc m uarg now ≡ submit_desc user clock abi d desc m uarg now
  unfolding submit_desc
  desc-same d desc m uarg now v =
      ap
        (λ (r : Outcome user clock abi).
          if leb 3 desc.accel_type
          then (fail einval, d, m)
          else if desc.flags == 0
          then if ltb max_size desc.input_size
            then (fail e2big, d, m)
            else if ltb max_size desc.output_size
            then (fail e2big, d, m)
            else r
          else (fail einval, d, m))
        (allocated-same d desc m uarg now v)

  submit-same :
      (d : Dev) (m : Mem) (uarg now : ℕ)
      → IsInOrder d.pool
      → case_submit_task user clock abi d m uarg now ≡ ioctl_submit_task user clock abi d m uarg now
  unfolding case_submit_task ioctl_submit_task
  submit-same d m uarg now v =
      option_same (user.copy_from_user task_desc m uarg) _ _ _
        (λ desc. desc-same d desc m uarg now v)

  query-same :
      (d : Dev) (m : Mem) (uarg : ℕ)
      → IsInOrder d.pool
      → case_query_task user clock abi d m uarg ≡ ioctl_query_task user clock abi d m uarg
  unfolding case_query_task ioctl_query_task
  query-same d m uarg v =
      option_same (user.copy_from_user task_status m uarg) _ _ _ (λ status.
        ap (λ (r : Ret × Mem). (r.0, d, r.1)) (task_query-same d status.task_id m uarg v))

  cancel-same :
      (d : Dev) (m : Mem) (uarg : ℕ)
      → IsInOrder d.pool
      → case_cancel_task user clock abi d m uarg ≡ ioctl_cancel_task user clock abi d m uarg
  unfolding case_cancel_task ioctl_cancel_task
  cancel-same d m uarg v =
      option_same (user.copy_from_user u32 m uarg) _ _ _
        (λ id. ap (λ (r : Ret × Dev). (r.0, r.1, m)) (task_cancel-same d id v))

  -- Over a pool in order, the handler of the driver in one file returns, changes and stores for every
  -- command, argument and memory what the handler of the built driver does.
  pub single_file_ioctl :
      (d : Dev) (cmd : ℕ) (m : Mem) (uarg now : ℕ)
      → IsInOrder d.pool
      → Single.cortex_forge_ioctl user clock abi d cmd m uarg now
        ≡ cortex_forge_ioctl user clock abi d cmd m uarg now
  unfolding Single.cortex_forge_ioctl cortex_forge_ioctl case_get_accel_info ioctl_get_accel_info
      case_set_power ioctl_set_power case_get_version ioctl_get_version case_get_profile
      ioctl_get_profile case_set_accel ioctl_set_accel
  single_file_ioctl d cmd m uarg now v =
      rw (submit-same d m uarg now v, query-same d m uarg v, cancel-same d m uarg v) refl
