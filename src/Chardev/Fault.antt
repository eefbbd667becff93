-- ===== src/Chardev/Fault.antt =====
-- A submission whose answer cannot be written back.
use cortex_forge_driver.Base.{
  arith, length, ℕ, suc, ◌≡◌, ◌<◌, ◌++◌, [], ◌∷◌, some, true, refl, ap, get_or-modify_self,
}
use cortex_forge_driver.Errno.{fail, efault}
use cortex_forge_driver.Kernel.{UserMemory, Clock, task_desc}
use cortex_forge_driver.Uapi.{TaskDesc}
use cortex_forge_driver.Uapi.Ioctl.{IoctlAbi}
use cortex_forge_driver.Task.{Task, max_tasks, pending}
use cortex_forge_driver.Task.Slots.{IsInOrder}
use cortex_forge_driver.Accel.{Accel, num_accelerators, zero_accel}
use cortex_forge_driver.Device.{Dev, accel_at, task_of, enqueue}
use cortex_forge_driver.Chardev.{ioctl_submit_task}
use cortex_forge_driver.Chardev.Submit.{IsAcceptable, accept-task, ioctl_submit_task_accepted}

module _ (user : UserMemory) (clock : Clock) (abi : IoctlAbi) where
  open user use {Mem, copy_from_user, copy_to_user}

  -- Over a pool in order with a task id left and the three accelerators, submitting an acceptable
  -- descriptor that can be read and not written back fails with EFAULT, and the task is accepted all the
  -- same: it is pending in its slot and the last of its accelerator's queue, and its id is used up.
  pub fault_keeps_task :
      (d : Dev) (m : Mem) (uarg now : ℕ) (desc : TaskDesc)
      → IsInOrder d.pool
      → length d.accelerators ≡ num_accelerators
      → copy_from_user task_desc m uarg ≡ some desc
      → IsAcceptable desc
      → d.pool.next_task_id < max_tasks
      → (copy_to_user task_desc m uarg (record desc { task_id = suc d.pool.next_task_id })).0 ≡ true
      → let (ret, d', m') = ioctl_submit_task user clock abi d m uarg now in
        (ret ≡ fail efault)
        × ((task_of d' d.pool.next_task_id).state ≡ pending)
        × ((accel_at d' desc.accel_type).task_queue
            ≡ (accel_at d desc.accel_type).task_queue ++ d.pool.next_task_id ∷ [])
        × (d'.pool.next_task_id ≡ suc d.pool.next_task_id)
  fault_keeps_task d m uarg now desc v three e acc h fault =
      rw (ioctl_submit_task_accepted user clock abi d m uarg now desc v e acc h) (
        rw fault refl,
        ap (λ (t : Task). t.state) (accept-task d desc now h v),
        ap (λ (x : Accel). x.task_queue)
            (get_or-modify_self d.accelerators desc.accel_type (enqueue d.pool.next_task_id)
              zero_accel (omega (arith, acc.accel, three))),
        refl,
      )
