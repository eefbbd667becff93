-- ===== src/Worker/Frame.antt =====
-- What a worker's step leaves alone in the pool.
use cortex_forge_driver.Worker.{Pc, locking, Moment, worker_step, take_head}
use cortex_forge_driver.Device.{accel_at, Dev}
use cortex_forge_driver.Kernel.{Clock}
use cortex_forge_driver.Base.{[], refl, ap, ◌∷◌, List, ◌≡◌, ℕ}
use cortex_forge_driver.Task.{Pool}

pub pool-take_head : (d : Dev) (a : ℕ) (queue : List ℕ) → (take_head d a queue).0.pool ≡ d.pool
unfolding take_head
pool-take_head d a [] = refl
pool-take_head d a (i ∷ rest) = refl

pub next_task_id-worker_step :
    (clock : Clock) (e : Moment) (d : Dev) (a : ℕ) (p : Pc)
    → (worker_step clock e d a p).0.pool.next_task_id ≡ d.pool.next_task_id
unfolding worker_step
next_task_id-worker_step clock e d a locking =
    ap (λ (p : Pool). p.next_task_id) (pool-take_head d a (accel_at d a).task_queue)
next_task_id-worker_step clock e d a p = refl
