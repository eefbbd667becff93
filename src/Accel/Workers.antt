-- ===== src/Accel/Workers.antt =====
-- accel_start_workers and accel_stop_workers of src/accel_manager.c. `kthread_run` is the kernel's: it
-- is given by what it returns for each accelerator's index.
use cortex_forge_driver.Base.{
  ap₂, ◌≤◌, ◌∙◌, ap, ◌<◌, ◌≡◌, ◌+◌, length, map, refl, arith, ℕ, zero, suc, List, [], ◌∷◌, false,
}
use cortex_forge_driver.Errno.{Errno, Ret, ok, fail}
use cortex_forge_driver.Accel.{thread, Accel, Thread, null, err_ptr}

-- The body of accel_stop_workers' loop. kthread_stop returns when the thread has returned.
abbrev pub stop_worker : Accel → Accel
stop_worker a = elim a.worker_thread [
  | null ↦ a
  | _ ↦ record a { running = false; worker_thread = null }
]

-- accel_stop_workers(accelerators, num).
unfoldable pub accel_stop_workers : ℕ → List Accel → List Accel
accel_stop_workers zero as' = as'
accel_stop_workers (suc num) [] = []
accel_stop_workers (suc num) (a ∷ as') = stop_worker a ∷ accel_stop_workers num as'

-- One turn of accel_start_workers' loop at index `i`, from what kthread_run returned and what the
-- later turns give. On a failure the loop is left with the error and the index.
abbrev pub start_turn :
    Thread → ℕ → Accel → List Accel → Ret × ℕ × List Accel → Ret × ℕ × List Accel
start_turn (err_ptr e) i a as' later = (fail e, i, record a { worker_thread = err_ptr e } ∷ as')
start_turn null i a as' (ret, stop, rest) = (ret, stop, record a { worker_thread = null } ∷ rest)
start_turn thread i a as' (ret, stop, rest) =
    (ret, stop, record a { worker_thread = thread } ∷ rest)

-- The loop at index `i`, over the accelerators from `i` on.
unfoldable pub start_from : (ℕ → Thread) → ℕ → List Accel → Ret × ℕ × List Accel
start_from kthread_run i [] = (ok, i, [])
start_from kthread_run i (a ∷ as') =
    start_turn (kthread_run i) i a as' (start_from kthread_run (suc i) as')

abbrev pub finish_start : Ret × ℕ × List Accel → Ret × List Accel
finish_start (ok, i, as') = (ok, as')
finish_start (fail e, i, as') = (fail e, accel_stop_workers i as')

unfoldable pub accel_start_workers : (ℕ → Thread) → List Accel → Ret × List Accel
unfolding start_from accel_stop_workers
accel_start_workers kthread_run as' = finish_start (start_from kthread_run 0 as')

abbrev pub launched : Accel → Accel
launched a = record a { worker_thread = thread }

abbrev pub stopped : Accel → Accel
stopped a = record a { running = false; worker_thread = null }

abbrev pub refused : Errno → Accel → Accel
refused e a = record a { worker_thread = err_ptr e }

-- The accelerators once the thread of number `k` could not be started.
abbrev pub stopped_before : ℕ → Errno → List Accel → List Accel
stopped_before k e [] = []
stopped_before zero e (a ∷ as') = refused e a ∷ as'
stopped_before (suc k) e (a ∷ as') = stopped a ∷ stopped_before k e as'

abbrev pub launched_before : ℕ → Errno → List Accel → List Accel
launched_before k e [] = []
launched_before zero e (a ∷ as') = refused e a ∷ as'
launched_before (suc k) e (a ∷ as') = launched a ∷ launched_before k e as'

start_from_all :
    (kthread_run : ℕ → Thread) (i m : ℕ) (as' : List Accel)
    → m ≡ i + length as'
    → ((j : ℕ) → i ≤ j → j < m → kthread_run j ≡ thread)
    → start_from kthread_run i as' ≡ (ok, m, map launched as')
unfolding start_from
start_from_all kthread_run i m [] q h = ap (λ x. (ok, x, [])) (omega arith)
start_from_all kthread_run i m (a ∷ as') q h =
    ap₂ (λ t later. start_turn t i a as' later) (h i (omega arith) (omega arith))
      (start_from_all kthread_run (suc i) m as' (omega arith) (λ j l. h j (omega arith)))

pub start_from_failed :
    (kthread_run : ℕ → Thread) (i m k : ℕ) (e : Errno) (as' : List Accel)
    → m ≡ i + k
    → k < length as'
    → ((j : ℕ) → i ≤ j → j < m → kthread_run j ≡ thread)
    → kthread_run m ≡ err_ptr e
    → start_from kthread_run i as' ≡ (fail e, m, launched_before k e as')
unfolding start_from
start_from_failed kthread_run i m k e [] q lt h f = absurd (omega arith)
start_from_failed kthread_run i m zero e (a ∷ as') q lt h f =
    ap₂ (λ t later. start_turn t i a as' later) (ap kthread_run (omega (arith, q)) ∙ f) refl
    ∙ ap (λ x. (fail e, x, refused e a ∷ as')) (omega arith)
start_from_failed kthread_run i m (suc k) e (a ∷ as') q lt h f =
    ap₂ (λ t later. start_turn t i a as' later) (h i (omega arith) (omega arith))
      (start_from_failed kthread_run (suc i) m k e as' (omega arith) (omega arith)
        (λ j l. h j (omega arith)) f)

stop_launched :
    (k : ℕ) (e : Errno) (as' : List Accel)
    → accel_stop_workers k (launched_before k e as') ≡ stopped_before k e as'
unfolding accel_stop_workers
stop_launched zero e [] = refl
stop_launched (suc k) e [] = refl
stop_launched zero e (a ∷ as') = refl
stop_launched (suc k) e (a ∷ as') = ap (◌∷◌ (stopped a)) (stop_launched k e as')

-- When every thread starts, accel_start_workers returns 0 and every accelerator has its thread.
pub accel_start_workers_all :
    (kthread_run : ℕ → Thread) (as' : List Accel)
    → ((j : ℕ) → j < length as' → kthread_run j ≡ thread)
    → accel_start_workers kthread_run as' ≡ (ok, map launched as')
unfolding accel_start_workers
accel_start_workers_all kthread_run as' h =
    ap finish_start (start_from_all kthread_run 0 (length as') as' (omega arith) (λ j l. h j))

-- When the threads before number k start and number k does not, accel_start_workers returns its
-- error, has stopped every thread it started, and leaves the accelerators after k as they were; that
-- of number k keeps the error pointer as its thread.
pub accel_start_workers_failed :
    (kthread_run : ℕ → Thread) (k : ℕ) (e : Errno) (as' : List Accel)
    → k < length as'
    → ((j : ℕ) → j < k → kthread_run j ≡ thread)
    → kthread_run k ≡ err_ptr e
    → accel_start_workers kthread_run as' ≡ (fail e, stopped_before k e as')
unfolding accel_start_workers
accel_start_workers_failed kthread_run k e as' lt h f =
    ap finish_start (start_from_failed kthread_run 0 k k e as' (omega arith) lt (λ j l. h j) f)
    ∙ ap (λ x. (fail e, x)) (stop_launched k e as')

-- Stopping all the accelerators whose threads were started leaves none running.
pub stop_all_launched :
    (as' : List Accel) → accel_stop_workers (length as') (map launched as') ≡ map stopped as'
unfolding accel_stop_workers
stop_all_launched [] = refl
stop_all_launched (a ∷ as') = ap (◌∷◌ (stopped a)) (stop_all_launched as')
