-- ===== src/Scenario/Life.antt =====
-- The driver's life: what holds in every reachable state, at states that submissions lead to.
use cortex_forge_driver.Base.{
  ◌∷◌, subst, ◌==◌, length, ◌≢◌, [], sym, ◌+◌, ℕ, zero, suc, ◌≡◌, ◌≤◌, ◌<◌, arith, ap, refl, ◌∙◌,
}
use cortex_forge_driver.Scenario.{info_cell, Cell, user, clock, desc, image}
use cortex_forge_driver.Uapi.Ioctl.{linux_abi}
use cortex_forge_driver.Uapi.Ioctl
use cortex_forge_driver.System.{System, boot, Reach, start, later, call}
use cortex_forge_driver.Device.{accel_at, init_device, task_of, Dev}
use cortex_forge_driver.Chardev.Submit.{
  accept-task, accept-IsInOrder, accept, IsAcceptable, ioctl_submit_task_accepted,
}
use cortex_forge_driver.Task.Slots.{
  IsInOrder, task_pool_init-IsInOrder, next_task_id-task_pool_init,
}
use cortex_forge_driver.Task.{Task, is_used, failed, pending, max_tasks}
use cortex_forge_driver.Chardev.{copied_out, Outcome, ioctl_submit_task, cortex_forge_ioctl}
use cortex_forge_driver.Accel.{num_accelerators}
use cortex_forge_driver.Errno.{enomem, fail}
use cortex_forge_driver.System.Ids.{
  done, exhausted_forever, used_ids_unique, next_task_id-free_tasks,
}
use cortex_forge_driver.Chardev.Dispatch.{submit_task, cortex_forge_ioctl-code}
use cortex_forge_driver.System.Placement.{in_lane}
use cortex_forge_driver.Chardev.Dispatch.{code, get_accel_info}
use cortex_forge_driver.Kernel.{accel_info}
use cortex_forge_driver.System.Tasks.{accepted_task_placed, never_failed_lem}
use cortex_forge_driver.Uapi.{AccelInfo}
use cortex_forge_driver.System.Info.{accel_info_lem, informed}

pub desc-IsAcceptable : IsAcceptable desc
desc-IsAcceptable = record {
  accel = omega arith;
  no_flags = refl;
  input = omega arith;
  output = omega arith;
}

-- The device after `n` submissions of the descriptor.
unfoldable pub submissions : ℕ → Dev
submissions zero = boot.dev
submissions (suc n) = accept (submissions n) desc 0

abbrev pub after : ℕ → System
after n = record boot { dev = submissions n }

pub next_task_id-submissions : (n : ℕ) → (submissions n).pool.next_task_id ≡ n
unfolding submissions init_device
next_task_id-submissions zero = next_task_id-task_pool_init
next_task_id-submissions (suc n) = ap suc (next_task_id-submissions n)

pub submissions-IsInOrder : (n : ℕ) → n ≤ max_tasks → IsInOrder (submissions n).pool
unfolding submissions init_device
submissions-IsInOrder zero h = task_pool_init-IsInOrder
submissions-IsInOrder (suc n) h =
    accept-IsInOrder (submissions n) desc 0 (omega (arith, next_task_id-submissions n))
      (submissions-IsInOrder n (omega arith))

-- Each of the submissions is an ioctl call.
pub submission :
    (n : ℕ)
    → n < max_tasks
    → (cortex_forge_ioctl user clock linux_abi
        (submissions n)
        (Ioctl.submit_task linux_abi)
        image
        1
        0).1
      ≡ submissions (suc n)
unfolding submissions
submission n h =
    ap (λ (r : Outcome user clock linux_abi). r.1)
      (cortex_forge_ioctl-code user clock linux_abi (submissions n) image 1 0 submit_task
        ∙ ioctl_submit_task_accepted user clock linux_abi (submissions n) image 1 0 desc
            (submissions-IsInOrder n (omega arith)) refl desc-IsAcceptable
            (omega (arith, next_task_id-submissions n)))

pub after-Reach : (n : ℕ) → n ≤ max_tasks → Reach user clock linux_abi (after n)
unfolding submissions
after-Reach zero h = start
after-Reach (suc n) h = later (after-Reach n (omega arith)) (
    call (Ioctl.submit_task linux_abi) image 1 0
      (ap (λ d. record boot { dev = d }) (sym (submission n (omega arith)))))

-- After two submissions.
two : Reach user clock linux_abi (after 2)
two = after-Reach 2 (omega arith)

accepted_task_placed_example :
    ((task_of (submissions 2) 1).accel_type < num_accelerators)
    × (in_lane (accel_at (submissions 2) 1) [] 1 ≡ (1 == (task_of (submissions 2) 1).accel_type))
accepted_task_placed_example =
    accepted_task_placed user clock linux_abi two 1 1 (omega (arith, next_task_id-submissions 2))

next_task_id-free_tasks_example :
    (submissions 2).pool.next_task_id + length (submissions 2).pool.free_tasks ≡ max_tasks
next_task_id-free_tasks_example = next_task_id-free_tasks user clock linux_abi two

never_failed_example : (task_of (submissions 2) 1).state ≢ failed
never_failed_example = never_failed_lem user clock linux_abi two 1

pending_at : (n : ℕ) → n < max_tasks → (task_of (submissions (suc n)) n).state ≡ pending
unfolding submissions
pending_at n h =
    subst (λ i. (task_of (accept (submissions n) desc 0) i).state ≡ pending)
      (next_task_id-submissions n)
      (ap (λ (t : Task). t.state)
        (accept-task (submissions n) desc 0 (omega (arith, next_task_id-submissions n))
          (submissions-IsInOrder n (omega arith))))

used_ids_unique_example : (◌≡◌ {A = ℕ} 0 0) × ((task_of (submissions 1) 0).id ≢ 0)
used_ids_unique_example =
    used_ids_unique user clock linux_abi (after-Reach 1 (omega arith)) 0 0
      (ap is_used (pending_at 0 (omega arith))) (ap is_used (pending_at 0 (omega arith))) refl

exhausted_forever_example :
    ioctl_submit_task user clock linux_abi (submissions 256) image 1 0
    ≡ (fail enomem, submissions 256, image)
exhausted_forever_example =
    exhausted_forever user clock linux_abi image 1 0 desc (after-Reach 256 (omega arith))
      (next_task_id-submissions 256) done refl desc-IsAcceptable

pub timeout_ms-submissions :
    (n : ℕ) → n < max_tasks → (task_of (submissions (suc n)) n).timeout_ms ≡ 20
unfolding submissions
timeout_ms-submissions n h =
    subst (λ i. (task_of (accept (submissions n) desc 0) i).timeout_ms ≡ 20)
      (next_task_id-submissions n)
      (ap (λ (t : Task). t.timeout_ms)
        (accept-task (submissions n) desc 0 (omega (arith, next_task_id-submissions n))
          (submissions-IsInOrder n (omega arith))))

-- A request for the second accelerator's information, at every address.
abbrev about_second : AccelInfo
about_second = record {
  accel_type = 1;
  freq_hz = 0;
  temp_celsius = 0;
  load_percent = 0;
  fw_version = 0;
  hw_version = 0;
  mem_total = 0;
  mem_free = 0;
  state = 0;
  reserved = 0 ∷ 0 ∷ 0 ∷ [];
}

abbrev asking_info : ℕ → Cell
asking_info a = info_cell about_second

accel_info_example :
    cortex_forge_ioctl user clock linux_abi
      (submissions 2)
      (code linux_abi get_accel_info)
      asking_info
      1
      0
    ≡ copied_out user clock linux_abi
        (submissions 2)
        (user.copy_to_user accel_info asking_info 1 (informed 0 about_second))
accel_info_example =
    accel_info_lem user clock linux_abi two asking_info 1 0 about_second refl (omega arith)
