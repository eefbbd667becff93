-- ===== src/Concurrent/Scan.antt =====
-- A cancellation that nothing interrupts.
use cortex_forge_driver.Base.{
  ◌⊎◌, subst, ℕ_discrete, if◌then◌else◌, ℕ, zero, suc, ◌+◌, ◌<◌, ◌≡◌, ◌∙◌, refl, arith, ap, inl,
  inr, List, false, length, Bool-cases, modify-modify, ltb,
}
use cortex_forge_driver.Errno.{Ret, ok, fail, enoent}
use cortex_forge_driver.Kernel.{UserMemory}
use cortex_forge_driver.Task.{Task, max_tasks, matches, task_cancel}
use cortex_forge_driver.Task.Lookup.{task_cancel_first, task_cancel_none}
use cortex_forge_driver.Task.Slots.{IsInOrder}
use cortex_forge_driver.Task.Issue.{task_cancel-at, task_cancel-unissued}
use cortex_forge_driver.Chardev.Change.{cancelled_at}
use cortex_forge_driver.Device.{Dev, task_of}
use cortex_forge_driver.Concurrent.{Call, returned, scanning, marking, call_step, call_steps}

module _ (user : UserMemory) (m : user.Mem) (uarg now : ℕ) (d : Dev) (id : ℕ) where
  open user use {Mem}

  call_steps-returned :
      (n : ℕ) (d' : Dev) (ret : Ret)
      → call_steps user uarg now n (d', returned ret, m) ≡ (d', returned ret, m)
  unfolding call_step
  call_steps-returned zero d' ret = refl
  call_steps-returned (suc n) d' ret = call_steps-returned n d' ret

  -- With task_cancel's result.
  abbrev ended : Ret × List Task → Dev × Call × Mem
  ended (ret, ts) = (record d { pool = record d.pool { tasks = ts } }, returned ret, m)

  -- From slot `k` on, with `n` slots left.
  scan :
      (n k : ℕ)
      → length d.pool.tasks ≡ max_tasks
      → k + n ≡ max_tasks
      → ((j : ℕ) → j < k → matches id (task_of d j) ≡ false)
      → call_steps user uarg now (suc (suc (suc (suc n)))) (d, scanning id k, m)
        ≡ ended (task_cancel id d.pool.tasks)
  unfolding call_step
  scan zero k size whole before =
      rw (last, task_cancel_none id d.pool.tasks (λ j lt. before j (omega (arith, size, whole))))
        refl
    where
      last : ltb k max_tasks ≡ false
      last = ground (arith, whole)
  scan (suc n) k size whole before = elim (Bool-cases (matches id (task_of d k))) [
    | inl hit ↦
        ap (call_steps user uarg now (suc (suc (suc (suc n))))) (tested (marking k) (rw hit refl))
        ∙ call_steps-returned (suc n) _ ok
        ∙ rw
            (
              modify-modify d.pool.tasks k,
              modify-modify d.pool.tasks k,
              task_cancel_first id d.pool.tasks k (omega (arith, size, whole)) before hit,
            )
            refl
    | inr miss ↦
        ap (call_steps user uarg now (suc (suc (suc (suc n)))))
          (tested (scanning id (k + 1)) (rw miss refl))
        ∙ scan n (k + 1) size (omega (arith, whole)) (λ j lt. elim (ℕ_discrete k j) [
          | yes e ↦ subst (λ i. matches id (task_of d i) ≡ false) e miss
          | no ne ↦ before j (omega arith)
        ])
  ]
    where
      tested :
          (next : Call)
          → (if matches id (task_of d k) then marking k else scanning id (k + 1)) ≡ next
          → call_step user m uarg now d (scanning id k) ≡ (d, next, m)
      tested next e = ap (λ c. (d, c, m)) (ground (arith, whole) ∙ e)

  cancel_alone :
      length d.pool.tasks ≡ max_tasks
      → call_steps user uarg now 260 (d, scanning id 0, m) ≡ ended (task_cancel id d.pool.tasks)
  cancel_alone size = scan 256 0 size refl (λ j lt. absurd (omega arith))

-- Over a pool in order, a cancellation taken by its moves with none of another between them has ended
-- after at most 260 of them: for the id of a slot that has been handed out it has returned 0 and left
-- that task with state CANCELLED, error -ECANCELED and its completion signalled, and nothing else of the
-- device changed; for any other id it has returned -ENOENT and left the device as it was.
pub cancellation_alone :
    (user : UserMemory) (m : user.Mem) (uarg now : ℕ) (d : Dev) (i id : ℕ)
    → IsInOrder d.pool
    → i < d.pool.next_task_id
    → (id ≡ 0) ⊎ (d.pool.next_task_id < id)
    → (call_steps user uarg now 260 (d, scanning (suc i) 0, m) ≡ (cancelled_at d i, returned ok, m))
      × (call_steps user uarg now 260 (d, scanning id 0, m) ≡ (d, returned (fail enoent), m))
cancellation_alone user m uarg now d i id v lt out = (
  cancel_alone user m uarg now d (suc i) v.size
      ∙ ap (ended user m uarg now d (suc i)) (task_cancel-at d.pool v i lt),
  cancel_alone user m uarg now d id v.size
      ∙ ap (ended user m uarg now d id) (task_cancel-unissued d.pool v id out),
)
