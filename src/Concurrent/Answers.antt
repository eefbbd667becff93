-- ===== src/Concurrent/Answers.antt =====
-- Calls that overlap: the ids that submissions answer.
use cortex_forge_driver.Base.{
  ltb, leb, ℕ, suc, ◌≤◌, ◌<◌, ◌≡◌, ◌≢◌, ◌∙◌, refl, sym, arith, ap, subst, List, [], ◌∷◌, Option,
  none, some, Bool, true, false, Bool-cases, leb, inl, inr, write, write_self, write_ne, ℕ_discrete,
  if_cases,
}
use cortex_forge_driver.Uapi.{TaskDesc}
use cortex_forge_driver.Kernel.{UserMemory, Clock, task_desc}
use cortex_forge_driver.Task.{task_free, matches, max_tasks, Pool}
use cortex_forge_driver.Device.{Dev, task_of}
use cortex_forge_driver.Worker.Frame.{next_task_id-worker_step}
use cortex_forge_driver.Concurrent.{
  Call, returned, filling, submitting, dating, adding, answering, scanning, marking, blaming,
  waking, call_step, answered, heard, Race, Place, Step, submit, cancel, move, work, Reach, start,
  later,
}
use cortex_forge_driver.Concurrent.Owned.{Absent, Distinct}
use cortex_forge_driver.Concurrent.Sound.{IsPool, IsRace, IsCall}
use cortex_forge_driver.Concurrent.Steps.{Reach-IsRace, begin_cases}
use cortex_forge_driver.Accel.{num_accelerators}

-- The slot of a submission that has not answered.
abbrev slot : Call → Option ℕ
slot (filling i desc) = some i
slot (submitting i desc) = some i
slot (dating i desc) = some i
slot (adding i desc) = some i
slot (answering i desc) = some i
slot _ = none

-- Ids from 1 to `n`.
abbrev pub Within : ℕ → List ℕ → Type 0
Within n [] = Unit {0}
Within n (id ∷ ids) = (0 < id) × (id ≤ n) × Within n ids

Within-Absent : (n id : ℕ) (ids : List ℕ) → n < id → Within n ids → Absent id ids
Within-Absent n id [] lt w = tt
Within-Absent n id (j ∷ ids) lt w = (λ e. omega (arith, w.1, e), Within-Absent n id ids lt w.2)

Within-mono : (n n' : ℕ) (ids : List ℕ) → n ≤ n' → Within n ids → Within n' ids
Within-mono n n' [] le w = tt
Within-mono n n' (j ∷ ids) le w = (w.0, omega (arith, w.1), Within-mono n n' ids le w.2)

-- With `n` ids handed out: the answers are such ids, each once, and none is that of a call under way.
record IsLog (n : ℕ) (calls : ℕ → Call) (answers : List ℕ) : Type 0 where
  within : Within n answers
  distinct : Distinct answers
  open_ids : (c i : ℕ) → slot (calls c) ≡ some i → Absent (suc i) answers

slot-caller :
    (p : Pool) (place : ℕ → Place) (caller : ℕ → ℕ) (c i : ℕ) (k : Call)
    → IsCall p place caller c k
    → slot k ≡ some i
    → caller i ≡ c
slot-caller p place caller c i (returned ret) v e = cc
slot-caller p place caller c i (filling j desc) v e = cc (v.mine, e)
slot-caller p place caller c i (submitting j desc) v e = cc (v.0.mine, e)
slot-caller p place caller c i (dating j desc) v e = cc (v.0.mine, e)
slot-caller p place caller c i (adding j desc) v e = cc (v.0.mine, e)
slot-caller p place caller c i (answering j desc) v e = cc (v.1, e)
slot-caller p place caller c i (scanning id j) v e = cc
slot-caller p place caller c i (marking j) v e = cc
slot-caller p place caller c i (blaming j) v e = cc
slot-caller p place caller c i (waking j) v e = cc

module _ {n : ℕ} {calls : ℕ → Call} {answers : List ℕ} (l : IsLog n calls answers) (c : ℕ) where
  -- Caller `c` moves to `k`, and the answers may have become others.
  IsLog-write :
      (n' : ℕ) (answers' : List ℕ) (k : Call)
      → Within n' answers'
      → Distinct answers'
      → ((i : ℕ) → slot k ≡ some i → Absent (suc i) answers')
      → ((c' i : ℕ) → c ≢ c' → slot (calls c') ≡ some i → Absent (suc i) answers')
      → IsLog n' (write calls c k) answers'
  IsLog-write n' answers' k w dist mine others = record {
    within = w;
    distinct = dist;
    open_ids = λ c' i e. elim (ℕ_discrete c c') [
      | yes same ↦
          mine i
            (ap slot (sym (write_self calls c k)) ∙ ap (λ b. slot (write calls c k b)) same ∙ e)
      | no ne ↦ others c' i ne (ap slot (sym (write_ne calls c c' k ne)) ∙ e)
    ];
  }

  -- Nothing is answered.
  IsLog-quiet :
      (k : Call)
      → ((i : ℕ) → slot k ≡ some i → Absent (suc i) answers)
      → IsLog n (write calls c k) answers
  IsLog-quiet k mine =
      IsLog-write n answers k l.within l.distinct mine (λ c' i ne e. l.open_ids c' i e)

  IsLog-idle : (k : Call) → slot k ≡ none → IsLog n (write calls c k) answers
  IsLog-idle k e = IsLog-quiet k (λ i e'. cc (e, e'))

  -- The next slot is got.
  IsLog-got : (desc : TaskDesc) → IsLog (suc n) (write calls c (filling n desc)) answers
  IsLog-got desc =
      IsLog-write (suc n) answers (filling n desc)
        (Within-mono n (suc n) answers (omega arith) l.within) l.distinct
        (λ i e.
          subst (λ j. Absent (suc j) answers) (cc e)
            (Within-Absent n (suc n) answers (omega arith) l.within))
        (λ c' i ne e. l.open_ids c' i e)

module _ (user : UserMemory) (m : user.Mem) (uarg now : ℕ) where
  open user use {Mem, copy_from_user, copy_to_user}

  module _ (d : Dev) (calls : ℕ → Call) (place : ℕ → Place) (caller : ℕ → ℕ) (answers : List ℕ)
      (pool : IsPool d.pool place) (callers : (c : ℕ) → IsCall d.pool place caller c (calls c))
      (l : IsLog d.pool.next_task_id calls answers) (c : ℕ) where
    -- Caller `c` moves from `k`.
    abbrev Logged : Call → Dev × Call × Mem → Type 0
    Logged k (d', k', m') =
        IsLog d'.pool.next_task_id (write calls c k')
          (heard k k' (copy_from_user task_desc m' uarg) answers)

    -- The answer of slot `i` has been copied out, or has faulted.
    answered-Logged :
        (i : ℕ) (desc : TaskDesc) (r : Bool × Mem)
        → i < d.pool.next_task_id
        → caller i ≡ c
        → Absent (suc i) answers
        → copy_to_user task_desc m uarg (record desc { task_id = (task_of d i).id }) ≡ r
        → Logged (answering i desc) (answered user d r)
    answered-Logged i desc (true, m') lt mine ab e = IsLog-idle l c _ refl
    answered-Logged i desc (false, m') lt mine ab e =
        rw (user.read_back task_desc m m' uarg _ e, pool.ids i lt)
          (IsLog-write l c d.pool.next_task_id (suc i ∷ answers) _
            (omega arith, omega (arith, lt), l.within) (ab, l.distinct) (λ j q. cc)
            (λ c' j ne q. (
              λ same. ne (
                  sym mine
                  ∙ ap caller (omega (arith, same))
                  ∙ slot-caller d.pool place caller c' j (calls c') (callers c') q),
              l.open_ids c' j q,
            )))

    move-Logged :
        (k : Call)
        → IsCall d.pool place caller c k
        → ((i : ℕ) → slot k ≡ some i → Absent (suc i) answers)
        → Logged k (call_step user m uarg now d k)
    unfolding call_step task_free
    move-Logged (returned ret) v ab = IsLog-idle l c _ refl
    move-Logged (filling i desc) v ab = IsLog-quiet l c _ (λ j q. ab j q)
    move-Logged (submitting i desc) v ab =
        elim (Bool-cases (leb num_accelerators (task_of d i).accel_type)) [
          | inl e ↦ rw e (IsLog-idle l c _ refl)
          | inr e ↦ rw e (IsLog-quiet l c _ (λ j q. ab j q))
        ]
    move-Logged (dating i desc) v ab = IsLog-quiet l c _ (λ j q. ab j q)
    move-Logged (adding i desc) v ab = IsLog-quiet l c _ (λ j q. ab j q)
    move-Logged (answering i desc) v ab = answered-Logged i desc _ v.0 v.1 (ab i refl) refl
    move-Logged (scanning id i) v ab =
        if_cases (λ k. Logged (scanning id i) (d, k, m)) (ltb i max_tasks)
          (if_cases (λ k. Logged (scanning id i) (d, k, m)) (matches id (task_of d i))
            (IsLog-idle l c _ refl) (IsLog-idle l c _ refl))
          (IsLog-idle l c _ refl)
    move-Logged (marking i) v ab = IsLog-idle l c _ refl
    move-Logged (blaming i) v ab = IsLog-idle l c _ refl
    move-Logged (waking i) v ab = IsLog-idle l c _ refl

module _ (user : UserMemory) (clock : Clock) where
  abbrev Logs : Race → Type 0
  Logs s = IsLog s.dev.pool.next_task_id s.calls s.answers

  Step-IsLog :
      {s t : Race}
      → Step user clock s t
      → IsRace s.dev s.pc s.calls s.place s.caller
      → Logs s
      → Logs t
  Step-IsLog {s} (submit c ret desc at e) v l = subst Logs (sym e) (
      begin_cases (λ r. IsLog r.0.pool.next_task_id (write s.calls c r.1) s.answers) desc s.dev
        s.place v.pool (λ ret. IsLog-idle l c (returned ret) refl) (λ lt h. IsLog-got l c desc))
  Step-IsLog {s} (cancel c ret id at e) v l =
      subst Logs (sym e) (IsLog-idle l c (scanning id 0) refl)
  Step-IsLog {s} (move c m uarg now e) v l = subst Logs (sym e) (
      move-Logged user m uarg now s.dev s.calls s.place s.caller s.answers v.pool v.callers l c
        (s.calls c) (v.callers c) (l.open_ids c))
  Step-IsLog {s} (work a m lt e) v l =
      subst Logs (sym e) (rw (next_task_id-worker_step clock m s.dev a (s.pc a)) l)

  Reach-IsLog : {s : Race} → Reach user clock s → Logs s
  Reach-IsLog start = record { within = tt; distinct = tt; open_ids = λ c i e. cc }
  Reach-IsLog (later r st) = Step-IsLog st (Reach-IsRace user clock r) (Reach-IsLog r)

  -- In every reachable state, however submissions, cancellations and workers interleave, the ids that
  -- callers have found in their descriptors after a submission that returned 0 are all different, and
  -- each is one of those handed out, from 1 on.
  pub answers_apart :
      {s : Race}
      → Reach user clock s
      → Distinct s.answers × Within s.dev.pool.next_task_id s.answers
  answers_apart r = let l = Reach-IsLog r in (l.distinct, l.within)
