-- ===== src/Concurrent/Steps.antt =====
-- The invariant in every state that callers and workers reach.
use cortex_forge_driver.Base.{
  true, ◌+◌, ℕ, zero, suc, ◌<◌, ◌≡◌, refl, arith, sym, subst, ap, write, if_cases, leb, ltb, ◌==◌,
  dec_lt, leb-false, le→leb,
}
use cortex_forge_driver.Errno.{ok, ecanceled, enoent, Ret, fail, einval, e2big, enomem}
use cortex_forge_driver.Uapi.{TaskDesc}
use cortex_forge_driver.Kernel.{UserMemory, Clock}
use cortex_forge_driver.Task.{cancelled, matches, Task, max_tasks, pending, task_alloc}
use cortex_forge_driver.Task.Slots.{allocated, task_pool_init-IsInOrder}
use cortex_forge_driver.Task.Issue.{task_alloc-rest, task_alloc-no_rest}
use cortex_forge_driver.Accel.{num_accelerators, accel_init}
use cortex_forge_driver.Device.{Dev, task_of, init_device, accel_at}
use cortex_forge_driver.Chardev.{with_pool, max_size, fill}
use cortex_forge_driver.Worker.{Pc, testing}
use cortex_forge_driver.Concurrent.{
  waking, blaming, marking, scanning, Call, returned, filling, submitting, dating, adding,
  answering, got, begin, call_step, Place, unissued, Race, boot, place_of_call, caller_of_call,
  Step, submit, move, cancel, work, Reach, start, later,
}
use cortex_forge_driver.Concurrent.Sound.{IsPool, IsRace, IsCall, IsLane, Carries, IsMine}
use cortex_forge_driver.Concurrent.Slots.{Carries-fill, Carries-update}
use cortex_forge_driver.Concurrent.Callers.{
  local-IsRace, quiet-IsRace, own-IsRace, add-IsRace, got-IsRace,
}
use cortex_forge_driver.Concurrent.Workers.{work-IsRace}

-- A submission begins with a refusal, or with the next slot for an accelerator that there is.
pub begin_cases {κ} :
    (P : Dev × Call → Type κ) (desc : TaskDesc) (d : Dev) (place : ℕ → Place)
    → IsPool d.pool place
    → ((ret : Ret) → P (d, returned ret))
    → (desc.accel_type < num_accelerators
        → d.pool.next_task_id < max_tasks
        → P (with_pool d (allocated d.pool), filling d.pool.next_task_id desc))
    → P (begin d desc)
unfolding begin got
begin_cases P desc d place v refused taken = elim (dec_lt desc.accel_type num_accelerators) [
  | yes lt ↦ if_cases P (leb num_accelerators desc.accel_type) (refused (fail einval)) (
      if_cases P (desc.flags == 0)
        (if_cases P (ltb max_size desc.input_size) (refused (fail e2big))
          (if_cases P (ltb max_size desc.output_size) (refused (fail e2big)) (allocating lt)))
        (refused (fail einval)))
  | no nlt ↦ rw (le→leb num_accelerators desc.accel_type (omega arith)) (refused (fail einval))
]
  where
    allocating : desc.accel_type < num_accelerators → P (got d desc (task_alloc d.pool))
    allocating lt = elim (dec_lt d.pool.next_task_id max_tasks) [
      | yes h ↦ rw (task_alloc-rest d.pool v.rest h) (taken lt h)
      | no h ↦
          rw (task_alloc-no_rest d.pool v.rest (omega (arith, v.bound))) (refused (fail enomem))
    ]

module _ (d : Dev) (pc : ℕ → Pc) (calls : ℕ → Call) (place : ℕ → Place) (caller : ℕ → ℕ)
    (v : IsRace d pc calls place caller) (c : ℕ) where
  -- Caller `c` has moved.
  abbrev Sound : Dev × Call → Type 0
  Sound (d', k) = IsRace d' pc (write calls c k) (place_of_call place k) (caller_of_call caller c k)

  abbrev SoundMove : {M : Type 0} → Dev × Call × M → Type 0
  SoundMove (d', k, m) = Sound (d', k)

  begin-Sound : (desc : TaskDesc) → Sound (begin d desc)
  begin-Sound desc =
      begin_cases Sound desc d place v.pool
        (λ ret. quiet-IsRace d pc calls place caller v c (returned ret) tt)
        (got-IsRace d pc calls place caller v c desc)

  -- The slot that caller `c` has got is for an accelerator that there is.
  submit-Sound :
      (user : UserMemory) (m : user.Mem) (uarg now i : ℕ) (desc : TaskDesc)
      → IsMine d.pool place caller c i desc × Carries d.pool i desc
      → SoundMove (call_step user m uarg now d (submitting i desc))
  unfolding call_step
  submit-Sound user m uarg now i desc (mine, carries) =
      rw (leb-false num_accelerators (task_of d i).accel_type (omega (arith, mine.accel, accel))) (
        own-IsRace d pc calls place caller v c i desc (λ t. record t { state = pending })
          (dating i desc) (λ t. refl) mine
          (
            record { issued = mine.issued; mine = mine.mine; here = mine.here; accel = mine.accel },
            Carries-update d.pool i i (λ t. record t { state = pending }) desc
                (record { id = λ t. refl; fields = λ desc t. refl }) carries,
          ))
    where
      accel : desc.accel_type ≡ (task_of d i).accel_type
      accel = ap (λ (t : Task). t.accel_type) carries

  call-Sound :
      (user : UserMemory) (m : user.Mem) (uarg now : ℕ) (k : Call)
      → IsCall d.pool place caller c k
      → SoundMove (call_step user m uarg now d k)
  unfolding call_step
  call-Sound user m uarg now (returned ret) h =
      quiet-IsRace d pc calls place caller v c (returned ret) tt
  call-Sound user m uarg now (filling i desc) mine =
      own-IsRace d pc calls place caller v c i desc (fill desc) (submitting i desc) (λ t. refl) mine
        (
          record { issued = mine.issued; mine = mine.mine; here = mine.here; accel = mine.accel },
          Carries-fill d.pool place v.pool i desc mine.issued,
        )
  call-Sound user m uarg now (submitting i desc) h = submit-Sound user m uarg now i desc h
  call-Sound user m uarg now (dating i desc) (mine, carries) =
      own-IsRace d pc calls place caller v c i desc (λ t. record t { submit_jiffies = now })
        (adding i desc) (λ t. refl) mine
        (
          record { issued = mine.issued; mine = mine.mine; here = mine.here; accel = mine.accel },
          Carries-update d.pool i i (λ t. record t { submit_jiffies = now }) desc
              (record { id = λ t. refl; fields = λ desc t. refl }) carries,
        )
  call-Sound user m uarg now (adding i desc) (mine, carries) =
      add-IsRace d pc calls place caller v c i desc mine
  call-Sound user m uarg now (answering i desc) h = quiet-IsRace d pc calls place caller v c _ tt
  call-Sound user m uarg now (scanning id i) h =
      if_cases (λ k. Sound (d, k)) (ltb i max_tasks)
        (if_cases (λ k. Sound (d, k)) (matches id (task_of d i))
          (quiet-IsRace d pc calls place caller v c (marking i) tt)
          (quiet-IsRace d pc calls place caller v c (scanning id (i + 1)) tt))
        (quiet-IsRace d pc calls place caller v c (returned (fail enoent)) tt)
  call-Sound user m uarg now (marking i) h =
      local-IsRace d pc calls place caller v c i (λ t. record t { state = cancelled }) (blaming i)
        (record { id = λ t. refl; fields = λ desc t. refl }) tt
  call-Sound user m uarg now (blaming i) h =
      local-IsRace d pc calls place caller v c i (λ t. record t { error_code = fail ecanceled })
        (waking i) (record { id = λ t. refl; fields = λ desc t. refl }) tt
  call-Sound user m uarg now (waking i) h =
      local-IsRace d pc calls place caller v c i (λ t. record t { done = true }) (returned ok)
        (record { id = λ t. refl; fields = λ desc t. refl }) tt

boot-IsLane : (a : ℕ) → IsLane (λ _. unissued) a (accel_at boot.dev a) testing
unfolding init_device accel_init
boot-IsLane zero = record { queue = tt; active = refl; held = tt }
boot-IsLane (suc zero) = record { queue = tt; active = refl; held = tt }
boot-IsLane (suc (suc zero)) = record { queue = tt; active = refl; held = tt }
boot-IsLane (suc (suc (suc a))) = record { queue = tt; active = refl; held = tt }

boot-IsRace : IsRace boot.dev boot.pc boot.calls boot.place boot.caller
unfolding init_device
boot-IsRace = record {
  pool = record {
    size = task_pool_init-IsInOrder.size;
    bound = task_pool_init-IsInOrder.bound;
    rest = task_pool_init-IsInOrder.rest;
    ids = λ i lt. (task_pool_init-IsInOrder.issued i lt).0;
    fresh = λ i le. refl;
  };
  three = refl;
  lanes = boot-IsLane;
  callers = λ c. tt;
}

module _ (user : UserMemory) (clock : Clock) where
  abbrev IsSound : Race → Type 0
  IsSound s = IsRace s.dev s.pc s.calls s.place s.caller

  Step-IsSound : {s t : Race} → Step user clock s t → IsSound s → IsSound t
  Step-IsSound {s} (submit c ret desc at e) v =
      subst IsSound (sym e) (begin-Sound s.dev s.pc s.calls s.place s.caller v c desc)
  Step-IsSound {s} (move c m uarg now e) v =
      subst IsSound (sym e) (
        call-Sound s.dev s.pc s.calls s.place s.caller v c user m uarg now (s.calls c)
          (v.callers c))
  Step-IsSound {s} (cancel c ret id at e) v =
      subst IsSound (sym e)
        (quiet-IsRace s.dev s.pc s.calls s.place s.caller v c (scanning id 0) tt)
  Step-IsSound {s} (work a m lt e) v =
      subst IsSound (sym e) (work-IsRace s.dev s.pc s.calls s.place s.caller v clock m a lt)

  pub Reach-IsRace : {s : Race} → Reach user clock s → IsRace s.dev s.pc s.calls s.place s.caller
  Reach-IsRace start = boot-IsRace
  Reach-IsRace (later r st) = Step-IsSound st (Reach-IsRace r)
