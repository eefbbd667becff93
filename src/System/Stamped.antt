-- ===== src/System/Stamped.antt =====
-- Every step keeps the tasks' times in order.
use cortex_forge_driver.Base.{
  ℕ, suc, ◌≤◌, ◌<◌, ◌≡◌, ◌≢◌, inl, inr, List, arith, ap, sym, ◌∙◌, subst, ℕ_discrete, write,
  write_self, write_ne,
}
use cortex_forge_driver.Task.{Task, complete, max_tasks}
use cortex_forge_driver.Task.Slots.{fresh_task}
use cortex_forge_driver.Task.Issue.{get_or-task_cancel}
use cortex_forge_driver.Device.{Dev, task_of}
use cortex_forge_driver.Kernel.{Clock}
use cortex_forge_driver.Worker.{Pc, stamping, completing, Moment, worker_step}
use cortex_forge_driver.Chardev.Frame.{cancel_in}
use cortex_forge_driver.Chardev.Submit.{accept, accept-task, fill_pending}
use cortex_forge_driver.System.Order.{held_lt, holds}
use cortex_forge_driver.System.Sound.{IsSound}
use cortex_forge_driver.System.Targets.{task_other}
use cortex_forge_driver.System.Stamps.{
  IsStamped, submit_jiffies-worker_step, complete_jiffies-worker_step, worker_step-IsCompleted,
  completing_after, stamped-worker_step,
}
use cortex_forge_driver.Uapi.{TaskDesc}

-- The step of a worker.
module _ (clock : Clock) (e : Moment) (d : Dev) (pc : ℕ → Pc) (log : ℕ → List ℕ) (a time : ℕ)
    (le : time ≤ e.now) (s : IsSound d pc log) (v : IsStamped d pc time) where
  abbrev after : Dev
  after = (worker_step clock e d a (pc a)).0

  -- What was in order stays in order.
  kept_order :
      (i : ℕ)
      → (task_of d i).submit_jiffies ≤ (task_of d i).complete_jiffies
      → (task_of after i).submit_jiffies ≤ (task_of after i).complete_jiffies
  kept_order i h = elim (complete_jiffies-worker_step clock e d a i (pc a)) [
    | inl same ↦ omega (arith, same, submit_jiffies-worker_step clock e d a i (pc a), h)
    | inr new ↦
        omega (arith, new, submit_jiffies-worker_step clock e d a i (pc a), v.submitted i, le)
  ]

  new_stamp :
      (i : ℕ)
      → (worker_step clock e d a (pc a)).1 ≡ completing i
      → (task_of after i).submit_jiffies ≤ (task_of after i).complete_jiffies
  new_stamp i h =
      let at : pc a ≡ stamping i = completing_after clock e d a i (pc a) h in
      let stamp : (task_of after i).complete_jiffies ≡ e.now =
        ap (λ p. (task_of (worker_step clock e d a p).0 i).complete_jiffies) at
        ∙ stamped-worker_step clock e d a i
            (omega (arith, held_lt (s.lanes a) (ap holds at), s.order.size, s.order.bound)) in
      omega (arith, stamp, submit_jiffies-worker_step clock e d a i (pc a), v.submitted i, le)

  pub work-IsStamped : IsStamped after (write pc a (worker_step clock e d a (pc a)).1) e.now
  work-IsStamped = record {
    submitted =
        λ i. omega (arith, submit_jiffies-worker_step clock e d a i (pc a), v.submitted i, le);
    past = λ i. elim (complete_jiffies-worker_step clock e d a i (pc a)) [
      | inl same ↦ omega (arith, same, v.past i, le)
      | inr new ↦ omega (arith, new)
    ];
    ended = λ i h. elim (worker_step-IsCompleted clock e d a i (pc a) h) [
      | inl before ↦ kept_order i (v.ended i before)
      | inr at ↦ kept_order i (v.stamped a i at)
    ];
    stamped = λ b i h. elim (ℕ_discrete a b) [
      | yes same ↦ new_stamp i (
          sym (write_self pc a (worker_step clock e d a (pc a)).1)
          ∙ subst (λ k. write pc a (worker_step clock e d a (pc a)).1 k ≡ completing i) (sym same)
              h)
      | no ne ↦
          kept_order i
            (v.stamped b i (sym (write_ne pc a b (worker_step clock e d a (pc a)).1 ne) ∙ h))
    ];
  }

pub IsStamped-later :
    {d : Dev} {pc : ℕ → Pc} {time now : ℕ} → time ≤ now → IsStamped d pc time → IsStamped d pc now
IsStamped-later le v = record {
  submitted = λ i. omega (arith, v.submitted i, le);
  past = λ i. omega (arith, v.past i, le);
  ended = v.ended;
  stamped = v.stamped;
}

pub cancel-IsStamped :
    (d : Dev) (pc : ℕ → Pc) (time id : ℕ) → IsStamped d pc time → IsStamped (cancel_in d id) pc time
cancel-IsStamped d pc time id v = record {
  submitted = λ i. ground (arith, get_or-task_cancel id d.pool.tasks i, v.submitted i);
  past = λ i. ground (arith, get_or-task_cancel id d.pool.tasks i, v.past i);
  ended = λ i h. elim (get_or-task_cancel id d.pool.tasks i) [
    | inl same ↦ rw same (v.ended i (sym (ap (λ (t : Task). t.state) same) ∙ h))
    | inr (gone, _) ↦ cc (gone, h)
  ];
  stamped = λ a i h. ground (arith, get_or-task_cancel id d.pool.tasks i, v.stamped a i h);
}

pub accept-IsStamped :
    (d : Dev) (pc : ℕ → Pc) (log : ℕ → List ℕ) (desc : TaskDesc) (now : ℕ)
    → d.pool.next_task_id < max_tasks
    → IsSound d pc log
    → IsStamped d pc now
    → IsStamped (accept d desc now) pc now
accept-IsStamped d pc log desc now room s v = record {
  submitted = λ i. each i (λ t. t.submit_jiffies ≤ now) (omega arith) (v.submitted i);
  past = λ i. each i (λ t. t.complete_jiffies ≤ now) (omega arith) (v.past i);
  ended = λ i.
      each i (λ t. t.state ≡ complete → t.submit_jiffies ≤ t.complete_jiffies) (λ q. cc)
        (v.ended i);
  stamped = λ a i h.
      let other : d.pool.next_task_id ≢ i =
        λ q. absurd (omega (arith, q, held_lt (s.lanes a) (ap holds h))) in
      rw (task_other d desc now i other) (v.stamped a i h);
}
  where
    each :
        (i : ℕ) (P : Task → Type 0)
        → P (fill_pending desc now (fresh_task (suc d.pool.next_task_id)))
        → P (task_of d i)
        → P (task_of (accept d desc now) i)
    each i P new old = elim (ℕ_discrete d.pool.next_task_id i) [
      | yes same ↦
          subst (λ k. P (task_of (accept d desc now) k)) same
            (subst P (sym (accept-task d desc now room s.order)) new)
      | no ne ↦ subst P (sym (task_other d desc now i ne)) old
    ]
