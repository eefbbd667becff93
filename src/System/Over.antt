-- ===== src/System/Over.antt =====
-- The tasks that the workers have dropped are over, in every reachable state.
use cortex_forge_driver.Base.{
  ℕ, List, ◌++◌, true, Option, none, some, ◌≡◌, ◌≢◌, ◌<◌, inl, inr, refl, arith, ap, sym, ◌∙◌,
  subst, write, write_self, write_ne, ℕ_discrete,
}
use cortex_forge_driver.System.Ended.{
  has_ended, IsOver, Reached, held_task, task_in, task_of-worker_step, Reached-worker_step, IsEnded,
  task_in-kept, IsOver-self, not_held, held_in_log,
}
use cortex_forge_driver.Device.{Dev, task_of}
use cortex_forge_driver.Kernel.{Clock, UserMemory}
use cortex_forge_driver.Worker.{unlinking, signalling, unloading, clearing, Pc, Moment, worker_step}
use cortex_forge_driver.System.{System, Step, Reach, start, later, call, work, taken}
use cortex_forge_driver.System.Sound.{IsSound}
use cortex_forge_driver.System.Targets.{IsPlaced, task_other}
use cortex_forge_driver.System.Tasks.{Reach-IsPlaced}
use cortex_forge_driver.System.Order.{holds, held_lt}
use cortex_forge_driver.System.Placement.{in_lane-lt, has}
use cortex_forge_driver.Task.{Task}
use cortex_forge_driver.Chardev.Frame.{accepts, cancels, unchanged, ioctl-Effect, Effect, cancel_in}
use cortex_forge_driver.Uapi.Ioctl.{IoctlAbi}
use cortex_forge_driver.Task.Issue.{get_or-task_cancel}
use cortex_forge_driver.System.Steps.{Reach-IsSound}
use cortex_forge_driver.Chardev.Submit.{accept}

module _ (clock : Clock) (e : Moment) (d : Dev) (pc : ℕ → Pc) (log : ℕ → List ℕ) (a : ℕ)
    (s : IsSound d pc log) (v : IsPlaced d log) (n : IsEnded d pc log) where
  IsOver-other :
      (b j : ℕ)
      → a ≢ b
      → has j (log b) ≡ true
      → holds (pc b) ≢ some j
      → IsOver (task_of (worker_step clock e d a (pc a)).0 j)
  IsOver-other b j ne there out =
      subst IsOver
        (sym (
          task_of-worker_step clock e d a j (pc a)
            (not_held clock e d pc log a s v n b j ne there)))
        (n.over b j there out)

  work-IsOver :
      (b j : ℕ)
      → has j (write log a (taken d a (pc a) ++ log a) b) ≡ true
      → holds (write pc a (worker_step clock e d a (pc a)).1 b) ≢ some j
      → IsOver (task_of (worker_step clock e d a (pc a)).0 j)
  work-IsOver b j there out = elim (ℕ_discrete a b) [
    | yes same ↦
        subst
          (λ k.
            has j (write log a (taken d a (pc a) ++ log a) k) ≡ true
            → holds (write pc a (worker_step clock e d a (pc a)).1 k) ≢ some j
            → IsOver (task_of (worker_step clock e d a (pc a)).0 j))
          same
          (λ h k.
            IsOver-self clock e d pc log a s v n j
              (ap (has j) (sym (write_self log a (taken d a (pc a) ++ log a))) ∙ h)
              (λ q. k (ap holds (write_self pc a (worker_step clock e d a (pc a)).1) ∙ q)))
          there out
    | no ne ↦
        IsOver-other b j ne
          (ap (has j) (sym (write_ne log a b (taken d a (pc a) ++ log a) ne)) ∙ there)
          (λ q. out (ap holds (write_ne pc a b (worker_step clock e d a (pc a)).1 ne) ∙ q))
  ]

  Reached-self :
      Reached
        (worker_step clock e d a (pc a)).1
        (held_task (worker_step clock e d a (pc a)).0 (worker_step clock e d a (pc a)).1)
  Reached-self =
      Reached-worker_step clock e d a (pc a)
        (λ i h. omega (arith, held_lt (s.lanes a) h, s.order.size, s.order.bound)) (n.reached a)

  Reached-other :
      (b : ℕ) → a ≢ b → Reached (pc b) (held_task (worker_step clock e d a (pc a)).0 (pc b))
  Reached-other b ne =
      subst (Reached (pc b))
        (sym (
          task_in-kept d (worker_step clock e d a (pc a)).0 (holds (pc b)) (λ k h.
            task_of-worker_step clock e d a k (pc a) (
              not_held clock e d pc log a s v n b k ne
                (held_in_log clock e d pc log a s v n b k h)))))
        (n.reached b)

  work-Reached :
      (b : ℕ)
      → let p = write pc a (worker_step clock e d a (pc a)).1 b in
        Reached p (held_task (worker_step clock e d a (pc a)).0 p)
  work-Reached b = elim (ℕ_discrete a b) [
    | yes same ↦
        subst
          (λ k.
            let p = write pc a (worker_step clock e d a (pc a)).1 k in
            Reached p (held_task (worker_step clock e d a (pc a)).0 p))
          same
          (subst (λ p. Reached p (held_task (worker_step clock e d a (pc a)).0 p))
            (sym (write_self pc a (worker_step clock e d a (pc a)).1)) Reached-self)
    | no ne ↦
        subst (λ p. Reached p (held_task (worker_step clock e d a (pc a)).0 p))
          (sym (write_ne pc a b (worker_step clock e d a (pc a)).1 ne)) (Reached-other b ne)
  ]

  work-IsEnded :
      IsEnded
        (worker_step clock e d a (pc a)).0
        (write pc a (worker_step clock e d a (pc a)).1)
        (write log a (taken d a (pc a) ++ log a))
  work-IsEnded = record { over = work-IsOver; reached = work-Reached }

-- What an ioctl may change of a task that has ended or is signalled.
record IsKept (t t' : Task) : Type 0 where
  ended : has_ended t.state ≡ true → has_ended t'.state ≡ true
  signalled : t.done ≡ true → t'.done ≡ true

IsKept-same : {t t' : Task} → t' ≡ t → IsKept t t'
IsKept-same q = record {
  ended = λ h. ap (λ (t : Task). has_ended t.state) q ∙ h;
  signalled = λ h. ap (λ (t : Task). t.done) q ∙ h;
}

Reached-IsKept : (p : Pc) {t t' : Task} → IsKept t t' → Reached p t → Reached p t'
Reached-IsKept (clearing i) k r = k.ended r
Reached-IsKept (unloading i) k r = k.ended r
Reached-IsKept (signalling i) k r = k.ended r
Reached-IsKept (unlinking i) k r = (k.ended r.0, k.signalled r.1)
Reached-IsKept _ k r = tt

task_in-IsKept :
    (d d' : Dev) (o : Option ℕ)
    → ((i : ℕ) → o ≡ some i → IsKept (task_of d i) (task_of d' i))
    → IsKept (task_in d o) (task_in d' o)
task_in-IsKept d d' none h = IsKept-same refl
task_in-IsKept d d' (some i) h = h i refl

kept-IsEnded :
    (d d' : Dev) (pc : ℕ → Pc) (log : ℕ → List ℕ)
    → ((i : ℕ) → i < d.pool.next_task_id → IsKept (task_of d i) (task_of d' i))
    → IsSound d pc log
    → IsEnded d pc log
    → IsEnded d' pc log
kept-IsEnded d d' pc log kept s n = record {
  over = λ b j there out.
      let (ended, signalled) = n.over b j there out in
      let k = kept j (in_lane-lt j (s.lanes b) (ground (arith, there))) in
      (k.ended ended, k.signalled signalled);
  reached = λ b.
      Reached-IsKept (pc b)
        (task_in-IsKept d d' (holds (pc b)) (λ i h. kept i (held_lt (s.lanes b) h))) (n.reached b);
}

cancel-IsKept : (d : Dev) (id i : ℕ) → IsKept (task_of d i) (task_of (cancel_in d id) i)
cancel-IsKept d id i = elim (get_or-task_cancel id d.pool.tasks i) [
  | inl same ↦ IsKept-same same
  | inr (q, _) ↦ record {
    ended = λ h. ap (λ (t : Task). has_ended t.state) q;
    signalled = λ h. ap (λ (t : Task). t.done) q;
  }
]

Effect-IsEnded :
    {now : ℕ} {d d' : Dev} (pc : ℕ → Pc) (log : ℕ → List ℕ)
    → Effect now d d'
    → IsSound d pc log
    → IsEnded d pc log
    → IsEnded d' pc log
Effect-IsEnded pc log (unchanged e) s n = rw e n
Effect-IsEnded {d} pc log (cancels id e) s n =
    rw e (kept-IsEnded d (cancel_in d id) pc log (λ i lt. cancel-IsKept d id i) s n)
Effect-IsEnded {now} {d} pc log (accepts desc acc h e) s n = rw e (
    kept-IsEnded d (accept d desc now) pc log
      (λ i lt. IsKept-same (task_other d desc now i (λ q. absurd (omega (arith, q, lt))))) s n)

module _ (user : UserMemory) (clock : Clock) (abi : IoctlAbi) where
  Step-IsEnded :
      {s t : System}
      → Step user clock abi s t
      → IsSound s.dev s.pc s.started
      → IsPlaced s.dev s.started
      → IsEnded s.dev s.pc s.started
      → IsEnded t.dev t.pc t.started
  Step-IsEnded {s} (call cmd m uarg now e) sound v n =
      subst (λ (x : System). IsEnded x.dev x.pc x.started) (sym e)
        (Effect-IsEnded s.pc s.started
          (ioctl-Effect user clock abi s.dev cmd m uarg now sound.order) sound n)
  Step-IsEnded {s} (work a m lt e) sound v n =
      subst (λ (x : System). IsEnded x.dev x.pc x.started) (sym e)
        (work-IsEnded clock m s.dev s.pc s.started a sound v n)

  pub Reach-IsEnded : {s : System} → Reach user clock abi s → IsEnded s.dev s.pc s.started
  Reach-IsEnded start = record { over = λ b j h out. cc; reached = λ b. tt }
  Reach-IsEnded (later r st) =
      Step-IsEnded st (Reach-IsSound user clock abi r) (Reach-IsPlaced user clock abi r)
        (Reach-IsEnded r)

  -- In every reachable state a task that the worker of an accelerator has taken and does not hold any
  -- more is complete or cancelled, and its completion is signalled.
  pub taken_task_over :
      {s : System}
      → Reach user clock abi s
      → (a i : ℕ) → has i (s.started a) ≡ true
      → holds (s.pc a) ≢ some i
      → (has_ended (task_of s.dev i).state ≡ true) × ((task_of s.dev i).done ≡ true)
  taken_task_over r a i there dropped = (Reach-IsEnded r).over a i there dropped
