-- ===== src/System/Fixed.antt =====
-- What no step changes of an accelerator: all but its lists and its load.
use cortex_forge_driver.Base.{ℕ, List, [], ◌∷◌, ◌≡◌, refl, get_or-modify_map}
use cortex_forge_driver.Accel.{Accel, zero_accel}
use cortex_forge_driver.Device.{Dev, accel_at}
use cortex_forge_driver.Kernel.{Clock}
use cortex_forge_driver.Chardev.Frame.{Effect, unchanged, cancels, accepts}
use cortex_forge_driver.Worker.{
  Pc, locking, loading, unloading, unlinking, Moment, worker_step, take_head,
}

-- A view of an accelerator that does not see its lists and its load.
abbrev pub IsFixed : {B : Type 0} → (Accel → B) → Type 0
IsFixed view =
    (x : Accel) (queue active : List ℕ) (load : ℕ)
    → view (record x { task_queue = queue; active_tasks = active; load_percent = load }) ≡ view x

module _ {B : Type 0} (view : Accel → B) (fixed : IsFixed view) where
  fixed-take_head :
      (d : Dev) (a b : ℕ) (queue : List ℕ)
      → view (accel_at (take_head d a queue).0 b) ≡ view (accel_at d b)
  unfolding take_head
  fixed-take_head d a b [] = refl
  fixed-take_head d a b (i ∷ rest) =
      get_or-modify_map view d.accelerators a b _ zero_accel (λ x. fixed x _ _ _)

  pub fixed-worker_step :
      (clock : Clock) (e : Moment) (d : Dev) (a b : ℕ) (p : Pc)
      → view (accel_at (worker_step clock e d a p).0 b) ≡ view (accel_at d b)
  unfolding worker_step
  fixed-worker_step clock e d a b locking = fixed-take_head d a b (accel_at d a).task_queue
  fixed-worker_step clock e d a b (loading i) =
      get_or-modify_map view d.accelerators a b _ zero_accel (λ x. fixed x _ _ _)
  fixed-worker_step clock e d a b (unloading i) =
      get_or-modify_map view d.accelerators a b _ zero_accel (λ x. fixed x _ _ _)
  fixed-worker_step clock e d a b (unlinking i) =
      get_or-modify_map view d.accelerators a b _ zero_accel (λ x. fixed x _ _ _)
  fixed-worker_step clock e d a b _ = refl

  pub fixed-Effect :
      {now : ℕ} {d d' : Dev} (b : ℕ) → Effect now d d' → view (accel_at d' b) ≡ view (accel_at d b)
  fixed-Effect b (unchanged e) = rw e refl
  fixed-Effect b (cancels id e) = rw e refl
  fixed-Effect {now} {d} b (accepts desc acc h e) =
      rw e
        (get_or-modify_map view d.accelerators desc.accel_type b _ zero_accel (λ x. fixed x _ _ _))
