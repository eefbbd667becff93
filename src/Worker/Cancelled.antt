-- ===== src/Worker/Cancelled.antt =====
-- A task that is cancelled while it waits.
use cortex_forge_driver.Base.{
  ℕ, suc, List, ◌∷◌, ◌++◌, ◌≡◌, ◌<◌, true, arith, ap, sym, ◌∙◌, subst, length, get_or-modify_self,
}
use cortex_forge_driver.Errno.{ok}
use cortex_forge_driver.Kernel.{Clock}
use cortex_forge_driver.Task.{task_cancel, zero_task}
use cortex_forge_driver.Task.Slots.{IsInOrder}
use cortex_forge_driver.Task.Issue.{get_or-task_cancel}
use cortex_forge_driver.Task.Lookup.{length-task_cancel}
use cortex_forge_driver.Device.{Dev, accel_at, task_of}
use cortex_forge_driver.Chardev.Frame.{cancel_in}
use cortex_forge_driver.Worker.{Moment, testing}
use cortex_forge_driver.Worker.Finish.{
  run, six, finished, Ticking, moments, finished-cancel_in, task_cancel-issued,
}
use cortex_forge_driver.Worker.Turn.{worker_turn}

-- Over a pool in order, cancelling the task that is first in the queue of a running worker returns 0,
-- and the worker executes the task all the same: if the tests of its inner loop come at least a jiffy
-- apart and there are more of them than the task's timeout has jiffies, then after one turn of its loop,
-- with no step of another between, the task is exactly as it is without the cancellation, complete with
-- error 0.
pub cancel_queued_lost :
    (clock : Clock) (a : ℕ) (d : Dev) (i : ℕ) (rest : List ℕ) (m₁ m₂ m₃ m₄ m₅ m₆ m₇ : Moment)
    (rounds : List (Moment × Moment)) (n₁ n₂ n₃ n₄ n₅ n₆ : Moment)
    → IsInOrder d.pool
    → i < d.pool.next_task_id
    → (accel_at d a).running ≡ true
    → (accel_at d a).task_queue ≡ i ∷ rest
    → Ticking clock a m₇.now 0 rounds
    → clock.msecs_to_jiffies (task_of d i).timeout_ms < length rounds
    → ((task_cancel (suc i) d.pool.tasks).0 ≡ ok)
      × (before : List Moment) × (others : List Moment) × (before ++ others
          ≡ moments clock a rounds)
      × (task_of
            (run clock a
              (six m₁ m₂ m₃ m₄ m₅ m₆ ++ (m₇ ∷ before) ++ six n₁ n₂ n₃ n₄ n₅ n₆)
              (cancel_in d (suc i), testing)).0
            i
          ≡ finished n₁ (task_of d i))
cancel_queued_lost clock a d i rest m₁ m₂ m₃ m₄ m₅ m₆ m₇ rounds n₁ n₂ n₃ n₄ n₅ n₆ v h up queue t
      enough =
    let (before, others, whole, turn) =
      worker_turn clock a (cancel_in d (suc i)) i rest m₁ m₂ m₃ m₄ m₅ m₆ m₇ rounds n₁ n₂ n₃ n₄ n₅ n₆
        up queue t
        (subst (λ n. clock.msecs_to_jiffies n < length rounds) (sym same_timeout) enough) in
    (
      task_cancel-issued d i v h,
      before,
      others,
      whole,
      ap (λ s. task_of s.0 i) turn
          ∙ get_or-modify_self (cancel_in d (suc i)).pool.tasks i (finished n₁) zero_task
              (omega (arith, length-task_cancel (suc i) d.pool.tasks, v.size, v.bound))
          ∙ finished-cancel_in d (suc i) i n₁,
    )
  where
    same_timeout : (task_of (cancel_in d (suc i)) i).timeout_ms ≡ (task_of d i).timeout_ms
    same_timeout = ground (arith, get_or-task_cancel (suc i) d.pool.tasks i)
