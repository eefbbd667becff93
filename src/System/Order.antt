-- ===== src/System/Order.antt =====
-- The lane of one accelerator: its queue, its worker, and the history of what the worker has taken.
use mathlib.Core.Path.{subst₃}
use cortex_forge_driver.Base.{
  ℕ, suc, ◌≤◌, ◌<◌, List, [], ◌∷◌, ◌++◌, Option, none, some, ◌≡◌, sym, arith,
}
use cortex_forge_driver.Accel.{Accel}
use cortex_forge_driver.Worker.{
  Pc, testing, waiting, woken, locking, starting, loading, timing, spinning, napping, sleeping,
  stamping, completing, clearing, unloading, signalling, unlinking, exited,
}

-- The slots of a queue rise from `lo` on and stay below `hi`.
abbrev pub Between : ℕ → List ℕ → ℕ → Type 0
Between lo [] hi = lo ≤ hi
Between lo (i ∷ is) hi = (lo ≤ i) × Between (suc i) is hi

-- One more than the latest slot of a history.
abbrev pub after_latest : List ℕ → ℕ
after_latest [] = 0
after_latest (i ∷ is) = suc i

-- A history, the latest first, falls.
abbrev pub Falling : List ℕ → Type 0
Falling [] = Unit {0}
Falling (i ∷ is) = (after_latest is ≤ i) × Falling is

pub Between-le : (lo : ℕ) (is : List ℕ) (hi : ℕ) → Between lo is hi → lo ≤ hi
Between-le lo [] hi b = b
Between-le lo (i ∷ is) hi b = omega (arith, Between-le (suc i) is hi b.1)

pub Between-snoc :
    (lo : ℕ) (is : List ℕ) (hi : ℕ) → Between lo is hi → Between lo (is ++ hi ∷ []) (suc hi)
Between-snoc lo [] hi b = (b, omega arith)
Between-snoc lo (i ∷ is) hi b = (b.0, Between-snoc (suc i) is hi b.1)

pub Between-mono :
    (lo : ℕ) (is : List ℕ) {hi hi' : ℕ} → hi ≤ hi' → Between lo is hi → Between lo is hi'
Between-mono lo [] h b = omega arith
Between-mono lo (i ∷ is) h b = (b.0, Between-mono (suc i) is h b.1)

-- The slot that a worker has taken and not yet unlinked.
abbrev pub holds : Pc → Option ℕ
holds testing = none
holds waiting = none
holds woken = none
holds locking = none
holds exited = none
holds (starting i) = some i
holds (loading i) = some i
holds (timing i) = some i
holds (spinning i s t) = some i
holds (napping i s t) = some i
holds (sleeping i) = some i
holds (stamping i) = some i
holds (completing i) = some i
holds (clearing i) = some i
holds (unloading i) = some i
holds (signalling i) = some i
holds (unlinking i) = some i

-- What a worker has added to its accelerator's load.
abbrev pub loaded : Pc → ℕ
loaded (timing i) = 10
loaded (spinning i s t) = 10
loaded (napping i s t) = 10
loaded (sleeping i) = 10
loaded (stamping i) = 10
loaded (completing i) = 10
loaded (clearing i) = 10
loaded (unloading i) = 10
loaded _ = 0

abbrev pub Latest : Option ℕ → List ℕ → Type 0
Latest none log = Unit {0}
Latest (some i) log = after_latest log ≡ suc i

abbrev pub to_list : Option ℕ → List ℕ
to_list none = []
to_list (some i) = i ∷ []

-- With `n` slots handed out.
pub record IsLane (n : ℕ) (x : Accel) (p : Pc) (log : List ℕ) : Type 0 where
  pub falling : Falling log
  pub queue : Between (after_latest log) x.task_queue n
  pub latest : Latest (holds p) log
  pub active : x.active_tasks ≡ to_list (holds p)
  pub load : x.load_percent ≡ loaded p

Latest-lt :
    (o : Option ℕ) (log : List ℕ) {i n : ℕ}
    → Latest o log
    → after_latest log ≤ n
    → o ≡ some i
    → i < n
Latest-lt none log l h e = cc
Latest-lt (some j) log l h e = ground arith

-- A held slot has been handed out.
pub held_lt :
    {n : ℕ} {x : Accel} {p : Pc} {log : List ℕ} {i : ℕ}
    → IsLane n x p log
    → holds p ≡ some i
    → i < n
held_lt {n} {x} {p} {log} v e =
    Latest-lt (holds p) log v.latest (Between-le (after_latest log) x.task_queue n v.queue) e

-- A lane seen through equations.
pub IsLane-eq :
    {n : ℕ} {x x' : Accel} {p p' : Pc} {log log' : List ℕ}
    → x' ≡ x
    → p' ≡ p
    → log' ≡ log
    → IsLane n x p log
    → IsLane n x' p' log'
IsLane-eq {n} ex ep el v = subst₃ (IsLane n) (sym ex) (sym ep) (sym el) v
