-- ===== src/System/Ids.antt =====
-- Task ids and slots over the life of the driver.
use cortex_forge_driver.Base.{
  some, ◌-◌, dec_lt, length-count_from, suc, ap, arith, ◌<◌, ◌≢◌, true, ◌≤◌, length, ◌≡◌, ◌+◌, ℕ,
}
use cortex_forge_driver.System.{work, call, System, Step, Reach}
use cortex_forge_driver.System.Steps.{Reach-IsSound}
use cortex_forge_driver.Task.{free, TaskState, max_tasks, task_at, is_used, Pool}
use cortex_forge_driver.Kernel.{task_desc, Clock, UserMemory}
use cortex_forge_driver.Task.Slots.{IsInOrder}
use cortex_forge_driver.Uapi.Ioctl.{IoctlAbi}
use cortex_forge_driver.Device.{Dev, task_of}
use cortex_forge_driver.Chardev.Frame.{ioctl-Effect, accepts, cancels, unchanged, Effect}
use cortex_forge_driver.System.Sound.{IsSound}
use cortex_forge_driver.Uapi.{TaskDesc}
use cortex_forge_driver.Chardev.Submit.{ioctl_submit_task_exhausted, IsAcceptable}
use cortex_forge_driver.Chardev.{ioctl_submit_task}
use cortex_forge_driver.Errno.{enomem, fail}
use cortex_forge_driver.Worker.Frame.{next_task_id-worker_step}

used_lt :
    (p : Pool) → IsInOrder p → (i : ℕ) → is_used (task_at p i).state ≡ true → i < p.next_task_id
used_lt p v i used = elim (dec_lt i p.next_task_id) [
  | yes h ↦ h
  | no h ↦ absurd (free_is_not_used (task_at p i).state (v.unissued i (omega arith)) used)
]
  where
    free_is_not_used : (s : TaskState) → s ≡ free → is_used s ≡ true → ⊥
    free_is_not_used s e u = ground arith

module _ (user : UserMemory) (clock : Clock) (abi : IoctlAbi) where
  -- In every reachable state the ids handed out and the free slots add up to the size of the pool.
  pub next_task_id-free_tasks :
      {s : System}
      → Reach user clock abi s
      → s.dev.pool.next_task_id + length s.dev.pool.free_tasks ≡ max_tasks
  next_task_id-free_tasks {s} r = omega (
    arith,
    ap length (Reach-IsSound user clock abi r).order.rest,
    length-count_from s.dev.pool.next_task_id (max_tasks - s.dev.pool.next_task_id),
    (Reach-IsSound user clock abi r).order.bound,
  )

  -- In every reachable state two slots in use with the same id are the same slot, and their id is
  -- not 0.
  pub used_ids_unique :
      {s : System}
      → Reach user clock abi s
      → (i j : ℕ) → is_used (task_of s.dev i).state ≡ true
      → is_used (task_of s.dev j).state ≡ true
      → (task_of s.dev i).id ≡ (task_of s.dev j).id
      → (i ≡ j) × ((task_of s.dev i).id ≢ 0)
  used_ids_unique {s} r i j ui uj e =
      (omega (arith, id_i, id_j, e), λ z. absurd (omega (arith, id_i, z)))
    where
      order : IsInOrder s.dev.pool
      order = (Reach-IsSound user clock abi r).order

      id_i : (task_of s.dev i).id ≡ suc i
      id_i = (order.issued i (used_lt s.dev.pool order i ui)).0

      id_j : (task_of s.dev j).id ≡ suc j
      id_j = (order.issued j (used_lt s.dev.pool order j uj)).0

  -- A number of steps.
  pub data Steps (s : System) : System → Type 0 where
    done : Steps s s
    more : {t u : System} → Steps s t → Step user clock abi t u → Steps s u

  Steps-Reach : {s t : System} → Reach user clock abi s → Steps s t → Reach user clock abi t
  Steps-Reach r done = r
  Steps-Reach r (more ss st) = Reach.later (Steps-Reach r ss) st

  Effect-next :
      {now : ℕ} {d d' : Dev} → Effect now d d' → d.pool.next_task_id ≤ d'.pool.next_task_id
  Effect-next (unchanged e) = omega (arith, ap (λ (x : Dev). x.pool.next_task_id) e)
  Effect-next (cancels id e) = omega (arith, ap (λ (x : Dev). x.pool.next_task_id) e)
  Effect-next (accepts desc acc h e) = omega (arith, ap (λ (x : Dev). x.pool.next_task_id) e)

  pub Step-next :
      {s t : System}
      → IsSound s.dev s.pc s.started
      → Step user clock abi s t
      → s.dev.pool.next_task_id ≤ t.dev.pool.next_task_id
  Step-next {s} {t} v (call cmd m uarg now e) = omega (
    arith,
    ap (λ (x : System). x.dev.pool.next_task_id) e,
    Effect-next (ioctl-Effect user clock abi s.dev cmd m uarg now v.order),
  )
  Step-next {s} {t} v (work a m lt e) = omega (
    arith,
    ap (λ (x : System). x.dev.pool.next_task_id) e,
    next_task_id-worker_step clock m s.dev a (s.pc a),
  )

  Steps-next :
      {s t : System}
      → Reach user clock abi s
      → Steps s t
      → s.dev.pool.next_task_id ≤ t.dev.pool.next_task_id
  Steps-next r done = omega arith
  Steps-next {s} {t} r (more {t = u} ss st) =
      omega (arith, Steps-next r ss, Step-next (Reach-IsSound user clock abi (Steps-Reach r ss)) st)

  -- Once 256 tasks have been accepted in a reachable state, then after any further steps of the
  -- clients and the workers a submission of an acceptable descriptor that can be read fails with
  -- ENOMEM and changes neither the device nor the user's memory.
  pub exhausted_forever :
      {s t : System} (m : user.Mem) (uarg now : ℕ) (desc : TaskDesc)
      → Reach user clock abi s
      → s.dev.pool.next_task_id ≡ max_tasks
      → Steps s t
      → user.copy_from_user task_desc m uarg ≡ some desc
      → IsAcceptable desc
      → ioctl_submit_task user clock abi t.dev m uarg now ≡ (fail enomem, t.dev, m)
  exhausted_forever {s} {t} m uarg now desc r full ss e acc =
      ioctl_submit_task_exhausted user clock abi t.dev m uarg now desc order e acc
        (omega (arith, Steps-next r ss, order.bound))
    where
      order : IsInOrder t.dev.pool
      order = (Reach-IsSound user clock abi (Steps-Reach r ss)).order
