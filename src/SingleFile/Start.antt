-- ===== src/SingleFile/Start.antt =====
-- The start of the workers in cortex_forge_probe of src/cortex_forge_main.c, and its error path. A call
-- of kthread_stop is noted with the pointer that it is passed.
use cortex_forge_driver.Base.{
  ℕ, zero, suc, List, [], ◌∷◌, ◌++◌, ◌≡◌, ◌<◌, false, refl, arith, ap, ◌∙◌, replicate, length,
}
use cortex_forge_driver.Errno.{Errno, Ret, ok, fail}
use cortex_forge_driver.Accel.{Accel, Thread, null, thread, err_ptr}
use cortex_forge_driver.Accel.Workers.{start_from, start_from_failed, launched_before}

-- One round of the loop at err_stop_workers, from the accelerator's thread and the later rounds.
abbrev pub stop_round : Thread → Accel → List Accel × List Thread → List Accel × List Thread
stop_round null a (as', stops) = (a ∷ as', stops)
stop_round thread a (as', stops) = (record a { running = false } ∷ as', thread ∷ stops)
stop_round (err_ptr e) a (as', stops) = (record a { running = false } ∷ as', err_ptr e ∷ stops)

unfoldable pub stop_loop : List Accel → List Accel × List Thread
stop_loop [] = ([], [])
stop_loop (a ∷ as') = stop_round a.worker_thread a (stop_loop as')

abbrev pub after_start : Ret × ℕ × List Accel → Ret × List Accel × List Thread
after_start (ok, i, as') = (ok, as', [])
after_start (fail e, i, as') = let (stopped, stops) = stop_loop as' in (fail e, stopped, stops)

-- The loop that starts the workers, and what follows it when a thread does not start.
unfoldable pub start_workers : (ℕ → Thread) → List Accel → Ret × List Accel × List Thread
unfolding start_from stop_loop
start_workers kthread_run as' = after_start (start_from kthread_run 0 as')

-- No accelerator has a thread.
abbrev pub AllNull : List Accel → Type 0
AllNull [] = Unit {0}
AllNull (a ∷ as') = (a.worker_thread ≡ null) × AllNull as'

stops_none : (as' : List Accel) → AllNull as' → (stop_loop as').1 ≡ []
unfolding stop_loop
stops_none [] h = refl
stops_none (a ∷ as') h = ap (λ t. (stop_round t a (stop_loop as')).1) h.0 ∙ stops_none as' h.1

stops_failed :
    (k : ℕ) (e : Errno) (as' : List Accel)
    → k < length as'
    → AllNull as'
    → (stop_loop (launched_before k e as')).1 ≡ replicate k thread ++ err_ptr e ∷ []
unfolding stop_loop
stops_failed k e [] lt h = absurd (omega (arith, lt))
stops_failed zero e (a ∷ as') lt h = ap (◌∷◌ (err_ptr e)) (stops_none as' h.1)
stops_failed (suc k) e (a ∷ as') lt h =
    ap (◌∷◌ thread) (stops_failed k e as' (omega (arith, lt)) h.1)

-- When the threads before number k start and number k does not, over accelerators without threads, the
-- error path of the driver in one file passes to kthread_stop the k threads that run and then the error
-- pointer of the one that does not.
pub start_workers_stops :
    (kthread_run : ℕ → Thread) (k : ℕ) (e : Errno) (as' : List Accel)
    → AllNull as'
    → k < length as'
    → ((j : ℕ) → j < k → kthread_run j ≡ thread)
    → kthread_run k ≡ err_ptr e
    → let (ret, _, stops) = start_workers kthread_run as' in
      (ret ≡ fail e) × (stops ≡ replicate k thread ++ err_ptr e ∷ [])
unfolding start_workers
start_workers_stops kthread_run k e as' nulls lt before at =
    let failed = start_from_failed kthread_run 0 k k e as' (omega arith) lt (λ j l. before j) at in
    (
      ap (λ r. (after_start r).0) failed,
      ap (λ r. (after_start r).2) failed ∙ stops_failed k e as' lt nulls,
    )
