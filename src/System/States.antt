-- ===== src/System/States.antt =====
-- Where a task is tells which states it can be in.
use cortex_forge_driver.System.{System, Step, Reach, start, later, call, work}
use cortex_forge_driver.System.Waiting.{
  IsWaiting, is_waiting, Effect-IsWaiting, work-IsWaiting, boot_queue_empty,
}
use cortex_forge_driver.Kernel.{Clock, UserMemory}
use cortex_forge_driver.Uapi.Ioctl.{IoctlAbi}
use cortex_forge_driver.Base.{
  ap, ◌∙◌, ℕ_discrete, Option-cases, inr, inl, Bool-cases, ◌≢◌, some, arith, true, ◌≡◌, sym, subst,
  ◌<◌, ℕ,
}
use cortex_forge_driver.System.Sound.{IsSound}
use cortex_forge_driver.System.Steps.{Reach-IsSound}
use cortex_forge_driver.System.Targets.{IsPlaced}
use cortex_forge_driver.System.Tasks.{Reach-IsPlaced}
use cortex_forge_driver.System.Placement.{in_lane, has}
use cortex_forge_driver.Device.{task_of, accel_at}
use cortex_forge_driver.Chardev.Frame.{ioctl-Effect}
use cortex_forge_driver.Task.{running}
use cortex_forge_driver.System.Order.{holds}
use cortex_forge_driver.System.Over.{taken_task_over}

module _ (user : UserMemory) (clock : Clock) (abi : IoctlAbi) where
  Step-IsWaiting :
      {s t : System}
      → Step user clock abi s t
      → IsSound s.dev s.pc s.started
      → IsPlaced s.dev s.started
      → IsWaiting s.dev
      → IsWaiting t.dev
  Step-IsWaiting {s} (call cmd m uarg now e) sound v w =
      subst (λ (x : System). IsWaiting x.dev) (sym e)
        (Effect-IsWaiting s.pc s.started
          (ioctl-Effect user clock abi s.dev cmd m uarg now sound.order) sound w)
  Step-IsWaiting {s} (work a m lt e) sound v w =
      subst (λ (x : System). IsWaiting x.dev) (sym e)
        (work-IsWaiting clock m s.dev s.pc s.started a (omega (arith, lt, sound.three)) sound v w)

  Reach-IsWaiting : {s : System} → Reach user clock abi s → IsWaiting s.dev
  Reach-IsWaiting start = λ b j h. cc (boot_queue_empty b j, h)
  Reach-IsWaiting (later r st) =
      Step-IsWaiting st (Reach-IsSound user clock abi r) (Reach-IsPlaced user clock abi r)
        (Reach-IsWaiting r)

  -- In every reachable state a task that waits in a queue is pending or cancelled.
  pub queued_task_waiting :
      {s : System}
      → Reach user clock abi s
      → (a i : ℕ) → has i (accel_at s.dev a).task_queue ≡ true
      → is_waiting (task_of s.dev i).state ≡ true
  queued_task_waiting r a i h = Reach-IsWaiting r a i h

  -- In every reachable state an accepted task that is running is held by the worker of the accelerator
  -- that it was submitted to.
  pub running_task_held :
      {s : System}
      → Reach user clock abi s
      → (i : ℕ) → i < s.dev.pool.next_task_id
      → (task_of s.dev i).state ≡ running
      → holds (s.pc (task_of s.dev i).accel_type) ≡ some i
  running_task_held {s} r i lt runs =
      elim (Option-cases (holds (s.pc (task_of s.dev i).accel_type))) [
        | inl none_held ↦ absurd (not_over (λ q. cc))
        | inr (k, held) ↦ elim (ℕ_discrete k i) [
          | yes same ↦ held ∙ ap some same
          | no ne ↦ absurd (not_over (λ q. let same : k ≡ i = cc in ne same))
        ]
      ]
    where
      lane :
          in_lane
            (accel_at s.dev (task_of s.dev i).accel_type)
            (s.started (task_of s.dev i).accel_type)
            i
          ≡ true
      lane = ((Reach-IsPlaced user clock abi r).placed i lt).1

      not_over : holds (s.pc (task_of s.dev i).accel_type) ≢ some i → ⊥
      not_over out =
          elim (Bool-cases (has i (accel_at s.dev (task_of s.dev i).accel_type).task_queue)) [
            | inl queued ↦ cc (Reach-IsWaiting r (task_of s.dev i).accel_type i queued, runs)
            | inr not_queued ↦ cc (
              (taken_task_over user clock abi r (task_of s.dev i).accel_type i
                  (ground (arith, lane, not_queued)) out).0,
              runs,
            )
          ]
