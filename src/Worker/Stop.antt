-- ===== src/Worker/Stop.antt =====
-- A worker that is told to stop: the flag of its accelerator is cleared, and kthread_stop has been called.
use cortex_forge_driver.Base.{
  ℕ, ◌-◌, ◌≤◌, ◌<◌, ◌≡◌, List, [], ◌∷◌, true, false, refl, arith, length, if_cases, ltb,
}
use cortex_forge_driver.Kernel.{Clock}
use cortex_forge_driver.Task.{elapsed}
use cortex_forge_driver.Device.{Dev, accel_at, task_of}
use cortex_forge_driver.Worker.{
  Pc, testing, waiting, woken, locking, starting, loading, timing, spinning, napping, sleeping,
  stamping, completing, clearing, unloading, signalling, unlinking, exited, is_running, Moment,
  worker_step, take_head,
}

-- The steps to the end, at most.
abbrev pub to_exit : Pc → ℕ
to_exit exited = 0
to_exit testing = 1
to_exit woken = 1
to_exit waiting = 2
to_exit (unlinking i) = 2
to_exit (signalling i) = 3
to_exit (unloading i) = 4
to_exit (clearing i) = 5
to_exit (completing i) = 6
to_exit (stamping i) = 7
to_exit (sleeping i) = 8
to_exit (napping i begin timeout) = 8
to_exit (spinning i begin timeout) = 9
to_exit (timing i) = 10
to_exit (loading i) = 11
to_exit (starting i) = 12
to_exit locking = 13

to_exit_le : (p : Pc) → to_exit p ≤ 13
to_exit_le testing = omega arith
to_exit_le waiting = omega arith
to_exit_le woken = omega arith
to_exit_le locking = omega arith
to_exit_le (starting i) = omega arith
to_exit_le (loading i) = omega arith
to_exit_le (timing i) = omega arith
to_exit_le (spinning i begin timeout) = omega arith
to_exit_le (napping i begin timeout) = omega arith
to_exit_le (sleeping i) = omega arith
to_exit_le (stamping i) = omega arith
to_exit_le (completing i) = omega arith
to_exit_le (clearing i) = omega arith
to_exit_le (unloading i) = omega arith
to_exit_le (signalling i) = omega arith
to_exit_le (unlinking i) = omega arith
to_exit_le exited = omega arith

to_exit-zero : (p : Pc) → to_exit p ≤ 0 → p ≡ exited
to_exit-zero exited h = refl
to_exit-zero testing h = absurd (omega (arith, h))
to_exit-zero waiting h = absurd (omega (arith, h))
to_exit-zero woken h = absurd (omega (arith, h))
to_exit-zero locking h = absurd (omega (arith, h))
to_exit-zero (starting i) h = absurd (omega (arith, h))
to_exit-zero (loading i) h = absurd (omega (arith, h))
to_exit-zero (timing i) h = absurd (omega (arith, h))
to_exit-zero (spinning i begin timeout) h = absurd (omega (arith, h))
to_exit-zero (napping i begin timeout) h = absurd (omega (arith, h))
to_exit-zero (sleeping i) h = absurd (omega (arith, h))
to_exit-zero (stamping i) h = absurd (omega (arith, h))
to_exit-zero (completing i) h = absurd (omega (arith, h))
to_exit-zero (clearing i) h = absurd (omega (arith, h))
to_exit-zero (unloading i) h = absurd (omega (arith, h))
to_exit-zero (signalling i) h = absurd (omega (arith, h))
to_exit-zero (unlinking i) h = absurd (omega (arith, h))

module _ (clock : Clock) (a : ℕ) where
  to_exit-take_head : (d : Dev) (queue : List ℕ) → to_exit (take_head d a queue).1 < 13
  unfolding take_head
  to_exit-take_head d [] = omega arith
  to_exit-take_head d (i ∷ rest) = omega arith

  -- A step of a worker that is told to stop brings it nearer to its end.
  to_exit-worker_step :
      (e : Moment) (d : Dev) (p : Pc)
      → e.should_stop ≡ true
      → (accel_at d a).running ≡ false
      → to_exit (worker_step clock e d a p).1 ≤ to_exit p - 1
  unfolding worker_step
  to_exit-worker_step e d testing stop down = rw down (omega arith)
  to_exit-worker_step e d waiting stop down = omega arith
  to_exit-worker_step e d woken stop down = rw down (omega arith)
  to_exit-worker_step e d locking stop down =
      omega (arith, to_exit-take_head d (accel_at d a).task_queue)
  to_exit-worker_step e d (starting i) stop down = omega arith
  to_exit-worker_step e d (loading i) stop down = omega arith
  to_exit-worker_step e d (timing i) stop down =
      if_cases (λ p. to_exit p ≤ 9) (ltb 0 (task_of d i).timeout_ms) (omega arith) (omega arith)
  to_exit-worker_step e d (spinning i begin timeout) stop down =
      if_cases (λ p. to_exit p ≤ 8) (ltb (elapsed e.now begin) timeout)
        (if_cases (λ p. to_exit p ≤ 8) (is_running (task_of d i).state) (omega arith) (omega arith))
        (omega arith)
  to_exit-worker_step e d (napping i begin timeout) stop down = rw stop (omega arith)
  to_exit-worker_step e d (sleeping i) stop down = omega arith
  to_exit-worker_step e d (stamping i) stop down = omega arith
  to_exit-worker_step e d (completing i) stop down = omega arith
  to_exit-worker_step e d (clearing i) stop down = omega arith
  to_exit-worker_step e d (unloading i) stop down = omega arith
  to_exit-worker_step e d (signalling i) stop down = omega arith
  to_exit-worker_step e d (unlinking i) stop down = omega arith
  to_exit-worker_step e d exited stop down = omega arith

  -- The place of the worker after its steps, between which others may change the device.
  abbrev pub places : List (Moment × Dev) → Pc → Pc
  places [] p = p
  places ((e, d) ∷ steps) p = places steps (worker_step clock e d a p).1

  -- The flag is cleared and kthread_should_stop is true at every step.
  abbrev pub IsStopping : List (Moment × Dev) → Type 0
  IsStopping [] = Unit {0}
  IsStopping ((e, d) ∷ steps) =
      (e.should_stop ≡ true) × ((accel_at d a).running ≡ false) × IsStopping steps

  to_exit-places :
      (steps : List (Moment × Dev)) (p : Pc)
      → IsStopping steps
      → to_exit (places steps p) ≤ to_exit p - length steps
  to_exit-places [] p h = omega arith
  to_exit-places ((e, d) ∷ steps) p h = omega (
    arith,
    to_exit-worker_step e d p h.0 h.1,
    to_exit-places steps (worker_step clock e d a p).1 h.2,
  )

  -- A worker whose flag is cleared and that kthread_stop waits for returns within 13 of its steps, from
  -- wherever it is, whatever the clients and the other workers do to the device between them and
  -- whatever the timeout of its task is.
  pub stopped_worker_exits :
      (steps : List (Moment × Dev)) (p : Pc)
      → IsStopping steps
      → 13 ≤ length steps
      → places steps p ≡ exited
  stopped_worker_exits steps p h enough =
      to_exit-zero (places steps p) (omega (arith, to_exit-places steps p h, to_exit_le p, enough))
