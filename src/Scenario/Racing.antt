-- ===== src/Scenario/Racing.antt =====
-- Two callers that submit at the same time: both get a slot, and the second queues its own first.
use cortex_forge_driver.Base.{
  ◌+◌, ◌*◌, false, if◌then◌else◌, inr, ap, some, ℕ, suc, ◌≡◌, ◌≢◌, ◌<◌, refl, arith, [], ◌∷◌, List,
  zero,
}
use cortex_forge_driver.Errno.{ok}
use cortex_forge_driver.Scenario.{user, clock, desc, image}
use cortex_forge_driver.Uapi.Ioctl.{linux_abi}
use cortex_forge_driver.Accel.{num_accelerators, accel_init}
use cortex_forge_driver.Task.{task_alloc, alloc_head, task_pool_init, init_from}
use cortex_forge_driver.Device.{Dev, init_device, accel_at, task_of}
use cortex_forge_driver.Concurrent.{
  Race, boot, begin, got, call_step, after_call, Reach, start, later, submit, move, adding,
  returned,
}
use cortex_forge_driver.Concurrent.Apart.{
  has, Disjoint, call_owns_slot, lists_apart, queued_as_asked,
}
use cortex_forge_driver.Concurrent.Alone.{submission_alone}
use cortex_forge_driver.Concurrent.{call_steps, Call, marking, scanning, waking}
use cortex_forge_driver.Worker.{Pc, completing, unloading, Moment}
use cortex_forge_driver.Scenario.Life.{submissions, submissions-IsInOrder}
use cortex_forge_driver.Concurrent.Answers.{answers_apart, Within}
use cortex_forge_driver.Concurrent.{after_move}
use cortex_forge_driver.Chardev.Change.{cancelled_at, submitted_in}
use cortex_forge_driver.Errno.{e2big, enoent, efault}
use cortex_forge_driver.Kernel.{task_desc}
use cortex_forge_driver.Scenario.Life.{desc-IsAcceptable, next_task_id-submissions}
use cortex_forge_driver.Uapi.{TaskDesc}
use cortex_forge_driver.Chardev.Submit.{IsAcceptable}
use cortex_forge_driver.Concurrent.Torn.{caller_moves, worker_moves, cancel_torn}
use cortex_forge_driver.Concurrent.Scan.{cancellation_alone}
use cortex_forge_driver.Task.{cancelled, complete}
use cortex_forge_driver.Errno.{fail, ecanceled}
use cortex_forge_driver.Concurrent.Owned.{Absent, Distinct}

-- Caller `c` enters, and moves on a number of times.
unfoldable entered : Race → ℕ → Race
entered s c = after_call s c (begin s.dev desc)

unfoldable moved : ℕ → Race → ℕ → Race
moved zero s c = s
moved (suc n) s c = after_move user clock (moved n s c) c image 1 0

moved-Reach : (n : ℕ) (s : Race) (c : ℕ) → Reach user clock s → Reach user clock (moved n s c)
unfolding moved
moved-Reach zero s c r = r
moved-Reach (suc n) s c r = later (moved-Reach n s c r) (move c image 1 0 refl)

-- Both callers have got a slot.
abbrev both : Race
both = entered (entered boot 0) 1

-- The second has queued its slot and the first is about to.
abbrev second_ahead : Race
second_ahead = moved 3 (moved 4 both 1) 0

-- Both are about to answer.
abbrev both_queued : Race
both_queued = moved 1 second_ahead 0

both-Reach : Reach user clock both
unfolding entered begin got task_alloc alloc_head init_device task_pool_init init_from
    cortex_forge_driver.Base.ℕ_discrete
both-Reach = later (later start (submit 0 ok desc refl refl)) (submit 1 ok desc refl refl)

second_ahead-Reach : Reach user clock second_ahead
second_ahead-Reach = moved-Reach 3 _ 0 (moved-Reach 4 both 1 both-Reach)

about_to_add : second_ahead.calls 0 ≡ adding 0 desc
unfolding entered moved call_step begin got task_alloc alloc_head init_device task_pool_init
    init_from cortex_forge_driver.Base.ℕ_discrete
about_to_add = refl

-- The queue is not in the order of the ids.
queue_overtaken : (accel_at both_queued.dev desc.accel_type).task_queue ≡ 1 ∷ 0 ∷ []
unfolding entered moved call_step begin got task_alloc alloc_head init_device task_pool_init
    init_from cortex_forge_driver.Base.ℕ_discrete accel_init
queue_overtaken = refl

call_owns_slot_example :
    ((a : ℕ)
      → Absent 0 (accel_at second_ahead.dev a).task_queue
        × Absent 0 (accel_at second_ahead.dev a).active_tasks)
    × Absent 0 second_ahead.dev.pool.free_tasks
    × ((c' : ℕ) → has (second_ahead.calls c') ≡ some 0 → c' ≡ 0)
call_owns_slot_example = call_owns_slot user clock second_ahead-Reach 0 0 (ap has about_to_add)

lists_apart_example :
    let d = both_queued.dev in
    Distinct (accel_at d 0).task_queue
    × Distinct (accel_at d 0).active_tasks
    × ((b : ℕ) → 0 ≢ b → Disjoint (accel_at d 0).task_queue (accel_at d b).task_queue)
    × ((b : ℕ) → Disjoint (accel_at d 0).task_queue (accel_at d b).active_tasks)
    × Disjoint (accel_at d 0).task_queue d.pool.free_tasks
    × ((b : ℕ) → 0 ≢ b → Disjoint (accel_at d 0).active_tasks (accel_at d b).active_tasks)
    × Disjoint (accel_at d 0).active_tasks d.pool.free_tasks
lists_apart_example = lists_apart user clock (moved-Reach 1 second_ahead 0 second_ahead-Reach) 0

queued_as_asked_example :
    let t = task_of second_ahead.dev 0 in
    (t.id ≡ 1)
    × (t.accel_type ≡ 1)
    × (t.priority ≡ 5)
    × (t.input_addr ≡ 0x1000)
    × (t.input_size ≡ 4096)
    × (t.output_addr ≡ 0x2000)
    × (t.output_size ≡ 4096)
    × (t.timeout_ms ≡ 20)
    × (1 < num_accelerators)
queued_as_asked_example = queued_as_asked user clock second_ahead-Reach 0 0 desc about_to_add

-- Both have answered, the first last.
abbrev both_answered : Race
both_answered = moved 1 (moved 1 both_queued 1) 0

both_answers : both_answered.answers ≡ 1 ∷ 2 ∷ []
unfolding entered moved call_step begin got task_alloc alloc_head init_device task_pool_init
    init_from cortex_forge_driver.Base.ℕ_discrete
both_answers = refl

answers_apart_example :
    Distinct both_answered.answers
    × Within both_answered.dev.pool.next_task_id both_answered.answers
answers_apart_example = answers_apart user clock (
    moved-Reach 1 _ 0
      (moved-Reach 1 both_queued 1 (moved-Reach 1 second_ahead 0 second_ahead-Reach)))

-- A byte more of input than there may be.
abbrev too_big : TaskDesc
too_big = record desc { input_size = 64 * 1024 * 1024 + 1 }

too_big_refused : ¬ IsAcceptable too_big
too_big_refused acc = omega (arith, acc.input)

submission_alone_example :
    let (fault, written) =
      user.copy_to_user task_desc image 1
        (record desc { task_id = suc (submissions 1).pool.next_task_id }) in
    let (d', k) = begin (submissions 1) desc in
    (call_steps user 1 0 5 (d', k, image) ≡ (
      submitted_in (submissions 1) desc 0,
      returned (if fault then fail efault else ok),
      written,
    ))
    × (begin (submissions 1) too_big ≡ (submissions 1, returned (fail e2big)))
submission_alone_example =
    submission_alone user clock linux_abi image 1 0 (submissions 1) desc too_big
      (submissions-IsInOrder 1 (omega arith)) refl desc-IsAcceptable too_big_refused
      (omega (arith, next_task_id-submissions 1))

-- A cancellation of the first task, whose worker is about to mark it complete.
abbrev found : Dev × Call × Pc
found = (submissions 1, marking 0, completing 0)

tick : Moment
tick = record { now = 9; should_stop = false }

abbrev called : Dev × Call × Pc → Dev × Call × Pc
called = caller_moves user clock 1 image 1 0 tick

abbrev worked : Dev × Call × Pc → Dev × Call × Pc
worked = worker_moves user clock 1 image 1 0 tick

cancel_torn_example :
    let (d₁, k₁, p₁) = worked (called (called (worked found))) in
    let (d₂, k₂, p₂) = called (worked (worked (called found))) in
    ((k₁ ≡ waking 0)
      × (p₁ ≡ unloading 0)
      × (task_of d₁ 0 ≡ record (task_of (submissions 1) 0) { state = cancelled; error_code = ok }))
    × ((k₂ ≡ waking 0)
        × (p₂ ≡ unloading 0)
        × (task_of d₂ 0
            ≡ record (task_of (submissions 1) 0) { state = complete; error_code = fail ecanceled }))
cancel_torn_example =
    cancel_torn user clock 1 image 1 0 tick (submissions 1) 0
      (omega (arith, (submissions-IsInOrder 1 (omega arith)).size))

cancellation_alone_example :
    (call_steps user 1 0 260 (submissions 1, scanning 1 0, image)
      ≡ (cancelled_at (submissions 1) 0, returned ok, image))
    × (call_steps user 1 0 260 (submissions 1, scanning 7 0, image)
        ≡ (submissions 1, returned (fail enoent), image))
cancellation_alone_example =
    cancellation_alone user image 1 0 (submissions 1) 0 7 (submissions-IsInOrder 1 (omega arith))
      (omega (arith, next_task_id-submissions 1)) (inr (omega (arith, next_task_id-submissions 1)))
