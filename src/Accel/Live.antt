-- ===== src/Accel/Live.antt =====
-- Which accelerators have a worker thread, after accel_start_workers and accel_stop_workers.
use cortex_forge_driver.Base.{
  ◌∙◌, inr, ap, dec_lt, length, inl, ◌⊎◌, ◌<◌, ◌≡◌, map, ◌≢◌, ℕ, zero, suc, List, [], ◌∷◌, Bool,
  true, false, refl, arith, if◌then◌else◌,
}
use cortex_forge_driver.Accel.{Accel, Thread, thread, null, err_ptr}
use cortex_forge_driver.Errno.{fail, ok, Errno}
use cortex_forge_driver.Accel.Workers.{
  accel_start_workers_failed, accel_start_workers_all, stopped_before, stopped, launched,
  accel_start_workers,
}

abbrev pub is_live : Thread → Bool
is_live thread = true
is_live _ = false

-- Whether some accelerator has a worker thread.
abbrev pub any_live : List Accel → Bool
any_live [] = false
any_live (a ∷ as') = if is_live a.worker_thread then true else any_live as'

abbrev pub all_live : List Accel → Bool
all_live [] = true
all_live (a ∷ as') = if is_live a.worker_thread then all_live as' else false

-- The first of `n` threads from `i` on that does not start.
first_failure :
    (kthread_run : ℕ → Thread) (n : ℕ)
    → ((j : ℕ) → kthread_run j ≢ null)
    → ((j : ℕ) → j < n → kthread_run j ≡ thread)
      ⊎ ((k : ℕ) × (e : Errno) × (k < n)
          × ((j : ℕ) → j < k → kthread_run j ≡ thread)
          × (kthread_run k ≡ err_ptr e))
first_failure kthread_run zero h = inl (λ j l. absurd (omega arith))
first_failure kthread_run (suc n) h = elim (first_failure kthread_run n h) [
  | inr (k, e, lt, before, at) ↦ inr (k, e, omega arith, before, at)
  | inl before ↦ at_last before (kthread_run n) refl
]
  where
    up_to :
        ((j : ℕ) → j < n → kthread_run j ≡ thread)
        → kthread_run n ≡ thread
        → (j : ℕ) → j < suc n
        → kthread_run j ≡ thread
    up_to before q j l = elim (dec_lt j n) [
      | yes lt ↦ before j lt
      | no ge ↦ ap kthread_run (omega arith) ∙ q
    ]

    at_last :
        ((j : ℕ) → j < n → kthread_run j ≡ thread)
        → (t : Thread) → kthread_run n ≡ t
        → ((j : ℕ) → j < suc n → kthread_run j ≡ thread)
          ⊎ ((k : ℕ) × (e : Errno) × (k < suc n)
              × ((j : ℕ) → j < k → kthread_run j ≡ thread)
              × (kthread_run k ≡ err_ptr e))
    at_last before null q = absurd (h n q)
    at_last before thread q = inl (up_to before q)
    at_last before (err_ptr e) q = inr (n, e, omega arith, before, q)

pub start_outcome :
    (kthread_run : ℕ → Thread) (as' : List Accel)
    → ((j : ℕ) → kthread_run j ≢ null)
    → (accel_start_workers kthread_run as' ≡ (ok, map launched as'))
      ⊎ ((k : ℕ) × (e : Errno) × accel_start_workers kthread_run as'
            ≡ (fail e, stopped_before k e as'))
start_outcome kthread_run as' h = elim (first_failure kthread_run (length as') h) [
  | inl all ↦ inl (accel_start_workers_all kthread_run as' all)
  | inr (k, e, lt, before, at) ↦
      inr (k, e, accel_start_workers_failed kthread_run k e as' lt before at)
]

pub any_live-stopped : (as' : List Accel) → any_live (map stopped as') ≡ false
any_live-stopped [] = refl
any_live-stopped (a ∷ as') = any_live-stopped as'

pub all_live-launched : (as' : List Accel) → all_live (map launched as') ≡ true
all_live-launched [] = refl
all_live-launched (a ∷ as') = all_live-launched as'

pub any_live-tail :
    (a : Accel) (as' : List Accel) → any_live (a ∷ as') ≡ false → any_live as' ≡ false
any_live-tail a as' h = ground arith

pub any_live-stopped_before :
    (k : ℕ) (e : Errno) (as' : List Accel)
    → any_live as' ≡ false
    → any_live (stopped_before k e as') ≡ false
any_live-stopped_before k e [] h = refl
any_live-stopped_before zero e (a ∷ as') h = any_live-tail a as' h
any_live-stopped_before (suc k) e (a ∷ as') h =
    any_live-stopped_before k e as' (any_live-tail a as' h)
