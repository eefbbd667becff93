-- ===== src/Scenario/Workers.antt =====
-- The workers, at concrete moments, and a worker's turn in the running driver.
use cortex_forge_driver.Base.{
  some, ℕ_discrete, sym, subst, ap, ℕ, ◌≡◌, ◌<◌, ◌++◌, arith, refl, List, [], ◌∷◌, none, true,
  false,
}
use cortex_forge_driver.Scenario.{user, clock}
use cortex_forge_driver.Scenario.Life.{
  after-Reach, after, timeout_ms-submissions, submissions, next_task_id-submissions,
  submissions-IsInOrder,
}
use cortex_forge_driver.Device.{accel_at, init_device, Dev, task_of}
use cortex_forge_driver.Worker.{take_head, worker_step, Moment, testing}
use cortex_forge_driver.Worker.Finish.{Ticking, run, moments, six, finished}
use cortex_forge_driver.Errno.{ok}
use cortex_forge_driver.Accel.{accel_init}
use cortex_forge_driver.Task.{running, init_from, task_pool_init, task_cancel}
use cortex_forge_driver.Chardev.Frame.{cancel_in}
use cortex_forge_driver.Worker.Cancelled.{cancel_queued_lost}
use cortex_forge_driver.Worker.Turn.{worker_turn, picked, dropped, changed}
use cortex_forge_driver.System.Ended.{has_ended}
use cortex_forge_driver.System.{work, after_work, System, Reach}
use cortex_forge_driver.System.Over.{taken_task_over}
use cortex_forge_driver.Uapi.Ioctl.{linux_abi}
use cortex_forge_driver.System.Order.{holds}
use cortex_forge_driver.System.Placement.{has}
use cortex_forge_driver.System.Waiting.{is_waiting}
use cortex_forge_driver.System.States.{running_task_held, queued_task_waiting}
use cortex_forge_driver.System.Spec.{FifoStep, fifo_of, waiting_for}
use cortex_forge_driver.System.Refines.{driver_refines_fifo}

-- The device with one accepted task.
abbrev second : Dev
second = submissions 1

at : ℕ → Moment
at n = record { now = n; should_stop = false }

-- Three rounds of the inner loop at jiffies 100, 102 and 103, for a timeout of two jiffies from 100 on.
abbrev rounds : List (Moment × Moment)
rounds = (at 100, at 101) ∷ (at 102, at 102) ∷ (at 103, at 103) ∷ []

-- The first submission stands at the head of its accelerator's queue.
queued_first : (accel_at second 1).task_queue ≡ 0 ∷ []
unfolding submissions init_device accel_init
queued_first = ap (λ n. n ∷ []) (next_task_id-submissions 0)

up_first : (accel_at second 1).running ≡ true
unfolding submissions init_device accel_init
up_first = refl

-- Tests at six jiffies, for the five of the task's timeout.
abbrev six_rounds : List (Moment × Moment)
six_rounds =
    (at 100, at 100)
    ∷ (at 101, at 101)
    ∷ (at 102, at 102)
    ∷ (at 103, at 103)
    ∷ (at 104, at 104)
    ∷ (at 105, at 105)
    ∷ []

six_rounds-Ticking : Ticking clock 1 100 0 six_rounds
unfolding at
six_rounds-Ticking =
    (omega arith, (omega arith, (omega arith, (omega arith, (omega arith, (omega arith, tt))))))

worker_turn_example :
    (before : List Moment) × (others : List Moment) × (before ++ others
      ≡ moments clock 1 six_rounds)
    × (run clock 1
          (six (at 99) (at 99) (at 99) (at 99) (at 99) (at 99)
            ++ (at 100 ∷ before)
            ++ six (at 105) (at 105) (at 105) (at 105) (at 105) (at 105))
          (second, testing)
        ≡ (changed second 0 (finished (at 105)) 1 (λ x. dropped 0 (picked 0 [] x)), testing))
unfolding at
worker_turn_example =
    worker_turn clock 1 second 0 [] (at 99) (at 99) (at 99) (at 99) (at 99) (at 99) (at 100)
      six_rounds (at 105) (at 105) (at 105) (at 105) (at 105) (at 105) up_first queued_first
      six_rounds-Ticking
      (subst (λ n. clock.msecs_to_jiffies n < 6) (sym (timeout_ms-submissions 0 (omega arith)))
        (omega arith))

cancel_queued_lost_example :
    ((task_cancel 1 second.pool.tasks).0 ≡ ok)
    × (before : List Moment) × (others : List Moment) × (before ++ others
        ≡ moments clock 1 six_rounds)
    × (task_of
          (run clock 1
            (six (at 99) (at 99) (at 99) (at 99) (at 99) (at 99)
              ++ (at 100 ∷ before)
              ++ six (at 105) (at 105) (at 105) (at 105) (at 105) (at 105))
            (cancel_in second 1, testing)).0
          0
        ≡ finished (at 105) (task_of second 0))
unfolding at
cancel_queued_lost_example =
    cancel_queued_lost clock 1 second 0 [] (at 99) (at 99) (at 99) (at 99) (at 99) (at 99) (at 100)
      six_rounds (at 105) (at 105) (at 105) (at 105) (at 105) (at 105)
      (submissions-IsInOrder 1 (omega arith)) (omega (arith, next_task_id-submissions 1)) up_first
      queued_first six_rounds-Ticking
      (subst (λ n. clock.msecs_to_jiffies n < 6) (sym (timeout_ms-submissions 0 (omega arith)))
        (omega arith))

-- The driver when the second accelerator's worker has taken a number of steps after a submission.
unfoldable turn : List Moment → System
turn [] = after 1
turn (m ∷ ms) = after_work user clock linux_abi (turn ms) 1 m

turn-Reach : (ms : List Moment) → Reach user clock linux_abi (turn ms)
unfolding turn
turn-Reach [] = after-Reach 1 (omega arith)
turn-Reach (m ∷ ms) = Reach.later (turn-Reach ms) (work 1 m (omega arith) refl)

-- The moments of a whole turn, the latest first.
abbrev whole_turn : List Moment
whole_turn =
    at 200
    ∷ at 200
    ∷ at 200
    ∷ at 200
    ∷ at 200
    ∷ at 200
    ∷ at 200
    ∷ at 100
    ∷ at 100
    ∷ at 100
    ∷ at 100
    ∷ at 100
    ∷ at 100
    ∷ at 100
    ∷ []

taken_first : has 0 ((turn whole_turn).started 1) ≡ true
unfolding turn submissions init_device accel_init task_pool_init init_from worker_step take_head at
    ℕ_discrete
taken_first = refl

dropped_first : holds ((turn whole_turn).pc 1) ≡ none
unfolding turn submissions init_device accel_init task_pool_init init_from worker_step take_head at
    ℕ_discrete
dropped_first = refl

taken_task_over_example :
    (has_ended (task_of (turn whole_turn).dev 0).state ≡ true)
    × ((task_of (turn whole_turn).dev 0).done ≡ true)
taken_task_over_example =
    taken_task_over user clock linux_abi (turn-Reach whole_turn) 1 0 taken_first
      (λ q. cc (dropped_first, q))

queued_task_waiting_example : is_waiting (task_of second 0).state ≡ true
queued_task_waiting_example =
    queued_task_waiting user clock linux_abi (after-Reach 1 (omega arith)) 1 0
      (ap (has 0) queued_first)

-- The moments up to the worker's write of RUNNING.
abbrev half_turn : List Moment
half_turn = at 100 ∷ at 100 ∷ at 100 ∷ at 100 ∷ at 100 ∷ []

running_first : (task_of (turn half_turn).dev 0).state ≡ running
unfolding turn submissions init_device accel_init task_pool_init init_from worker_step take_head at
    ℕ_discrete
running_first = refl

issued_first : (turn half_turn).dev.pool.next_task_id ≡ 1
unfolding turn submissions init_device accel_init task_pool_init init_from worker_step take_head at
    ℕ_discrete
issued_first = refl

running_task_held_example :
    holds ((turn half_turn).pc (task_of (turn half_turn).dev 0).accel_type) ≡ some 0
running_task_held_example =
    running_task_held user clock linux_abi (turn-Reach half_turn) 0 (omega (arith, issued_first))
      running_first

-- The moments up to the worker's lock.
abbrev at_lock : List Moment
at_lock = at 100 ∷ at 100 ∷ at 100 ∷ []

driver_refines_fifo_example :
    ((a : ℕ) → (accel_at (turn at_lock).dev a).task_queue ≡ waiting_for (fifo_of (turn at_lock)) a)
    × FifoStep (fifo_of (turn at_lock)) (fifo_of (turn (at 100 ∷ at_lock)))
unfolding turn
driver_refines_fifo_example =
    driver_refines_fifo user clock linux_abi (turn-Reach at_lock)
      (work 1 (at 100) (omega arith) refl)
