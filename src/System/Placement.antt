-- ===== src/System/Placement.antt =====
-- Where an accepted task is: with its own accelerator, in the queue or among the tasks its worker has
-- taken; and which states tasks can be in.
use cortex_forge_driver.System.{taken, first_of_queue}
use cortex_forge_driver.System.Order.{Between-le, Between, Falling, after_latest, IsLane}
use cortex_forge_driver.Worker.{
  Pc, locking, loading, unloading, unlinking, Moment, worker_step, take_head,
}
use cortex_forge_driver.Kernel.{Clock}
use cortex_forge_driver.Accel.{zero_accel, Accel}
use cortex_forge_driver.Base.{
  write_ne, get_or-modify_ne, sym, ◌∙◌, write_self, get_or-modify_self, subst, suc, ℕ_discrete,
  write_same, get_or-modify_map, ap, arith, refl, ap₂, ◌==◌, [], write, length, ◌∷◌, false, true,
  ◌||◌, ◌≡◌, Bool, ◌++◌, ◌<◌, List, ℕ,
}
use cortex_forge_driver.Device.{accel_at, Dev}
use cortex_forge_driver.Device.{set_accel}

abbrev pub has : ℕ → List ℕ → Bool
has i [] = false
has i (j ∷ js) = j == i || has i js

-- In the queue of an accelerator, or in the history of its worker.
abbrev pub in_lane : Accel → List ℕ → ℕ → Bool
in_lane x log i = has i x.task_queue || has i log

pub has-snoc : (i : ℕ) (js : List ℕ) (n : ℕ) → has i (js ++ n ∷ []) ≡ has i js || n == i
has-snoc i [] n = ground arith
has-snoc i (j ∷ js) n = ground (arith, has-snoc i js n)

pub has-Between : (i lo : ℕ) (js : List ℕ) (hi : ℕ) → Between lo js hi → has i js ≡ true → i < hi
has-Between i lo [] hi b h = cc
has-Between i lo (j ∷ js) hi b h =
    ground (arith, has-Between i (suc j) js hi b.1, Between-le (suc j) js hi b.1)

pub has-Falling : (i : ℕ) (js : List ℕ) → Falling js → has i js ≡ true → i < after_latest js
has-Falling i [] f h = cc
has-Falling i (j ∷ js) f h = ground (arith, has-Falling i js f.1)

pub in_lane-lt :
    {n : ℕ} {x : Accel} {p : Pc} {log : List ℕ} (i : ℕ)
    → IsLane n x p log
    → in_lane x log i ≡ true
    → i < n
in_lane-lt {n} {x} {p} {log} i v h = ground (
  arith,
  has-Between i (after_latest log) x.task_queue n v.queue,
  has-Falling i log v.falling,
  Between-le (after_latest log) x.task_queue n v.queue,
)

-- A worker's step moves a task within its lane, and keeps the target of every task.
module _ (clock : Clock) (e : Moment) (d : Dev) (log : ℕ → List ℕ) (a : ℕ) (b i : ℕ) where
  lane_of : Dev → (ℕ → List ℕ) → Bool
  lane_of x l = in_lane (accel_at x b) (l b) i

  queue_kept :
      (f : Accel → Accel)
      → ((x : Accel) → (f x).task_queue ≡ x.task_queue)
      → in_lane (accel_at (set_accel d a f) b) (write log a (log a) b) i
        ≡ in_lane (accel_at d b) (log b) i
  queue_kept f keep =
      ap₂ (λ q l. has i q || has i l)
        (get_or-modify_map (λ (x : Accel). x.task_queue) d.accelerators a b f zero_accel keep)
        (write_same log a b)

  log_kept : in_lane (accel_at d b) (write log a (log a) b) i ≡ in_lane (accel_at d b) (log b) i
  log_kept = ap (λ l. has i (accel_at d b).task_queue || has i l) (write_same log a b)

  lane-take_head :
      (queue : List ℕ)
      → a < length d.accelerators
      → (accel_at d a).task_queue ≡ queue
      → in_lane
          (accel_at (take_head d a queue).0 b)
          (write log a (first_of_queue queue ++ log a) b)
          i
        ≡ in_lane (accel_at d b) (log b) i
  unfolding take_head
  lane-take_head [] lt q = log_kept
  lane-take_head (j ∷ rest) lt q = elim (ℕ_discrete a b) [
    | yes same ↦ subst Kept same (
        ap₂ (λ q' l. has i q' || has i l)
          (ap (λ (x : Accel). x.task_queue) (get_or-modify_self d.accelerators a _ zero_accel lt))
          (write_self log a (j ∷ log a))
        ∙ swapped
        ∙ sym (ap (λ q'. has i q' || has i (log a)) q))
    | no ne ↦
        ap₂ (λ q' l. has i q' || has i l)
          (ap (λ (x : Accel). x.task_queue) (get_or-modify_ne d.accelerators a b _ zero_accel ne))
          (write_ne log a b (j ∷ log a) ne)
  ]
    where
      Kept : ℕ → Type 0
      Kept k =
          in_lane (accel_at (take_head d a (j ∷ rest)).0 k) (write log a (j ∷ log a) k) i
          ≡ in_lane (accel_at d k) (log k) i

      swapped : has i rest || has i (j ∷ log a) ≡ has i (j ∷ rest) || has i (log a)
      swapped = ground arith

  pub lane-worker_step :
      (p : Pc)
      → a < length d.accelerators
      → in_lane (accel_at (worker_step clock e d a p).0 b) (write log a (taken d a p ++ log a) b) i
        ≡ in_lane (accel_at d b) (log b) i
  unfolding worker_step
  lane-worker_step locking lt = lane-take_head (accel_at d a).task_queue lt refl
  lane-worker_step (loading j) lt = queue_kept _ (λ x. refl)
  lane-worker_step (unloading j) lt = queue_kept _ (λ x. refl)
  lane-worker_step (unlinking j) lt = queue_kept _ (λ x. refl)
  lane-worker_step _ lt = log_kept
