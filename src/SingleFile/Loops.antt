-- ===== src/SingleFile/Loops.antt =====
-- The loops over all the slots by index, as the searches of a list.
use cortex_forge_driver.Base.{
  if◌then◌else◌, ap₂, Option, ℕ, zero, suc, List, [], ◌∷◌, ◌++◌, ◌≡◌, refl, arith, ap, ◌∙◌, sym,
  length, get_or, modify, Bool-cases, inl, inr, length-append, some, none, Bool,
}
use cortex_forge_driver.Task.{
  Task, zero_task, matches, find_task, status_of, copied, task_cancel, cancel_task,
}
use cortex_forge_driver.Device.{Dev, set_task}
use cortex_forge_driver.SingleFile.{cancel_loop, query_loop}
use cortex_forge_driver.Errno.{Ret, ok, fail, enoent}
use cortex_forge_driver.Kernel.{UserMemory, Clock, task_status}

get_or-append :
    (xs ys : List Task) (y : Task) (i : ℕ) → i ≡ length xs → get_or (xs ++ y ∷ ys) i zero_task ≡ y
get_or-append [] ys y zero h = refl
get_or-append [] ys y (suc i) h = absurd (omega (arith, h))
get_or-append (x ∷ xs) ys y zero h = absurd (omega (arith, h))
get_or-append (x ∷ xs) ys y (suc i) h = get_or-append xs ys y i (omega (arith, h))

modify-append :
    (xs ys : List Task) (y : Task) (i : ℕ) (f : Task → Task)
    → i ≡ length xs
    → modify (xs ++ y ∷ ys) i f ≡ xs ++ f y ∷ ys
modify-append [] ys y zero f h = refl
modify-append [] ys y (suc i) f h = absurd (omega (arith, h))
modify-append (x ∷ xs) ys y zero f h = absurd (omega (arith, h))
modify-append (x ∷ xs) ys y (suc i) f h = ap (◌∷◌ x) (modify-append xs ys y i f (omega (arith, h)))

append_snoc : (xs ys : List Task) (y : Task) → xs ++ y ∷ ys ≡ (xs ++ y ∷ []) ++ ys
append_snoc [] ys y = refl
append_snoc (x ∷ xs) ys y = ap (◌∷◌ x) (append_snoc xs ys y)

abbrev with_tasks : Dev → List Task → Dev
with_tasks d ts = record d { pool = record d.pool { tasks = ts } }

abbrev pub paired : Dev → List Task → Ret × List Task → Ret × Dev
paired d xs r = (r.0, with_tasks d (xs ++ r.1))

pub cancel_loop_lem :
    (task_id : ℕ) (d : Dev) (xs ys : List Task) (i : ℕ)
    → i ≡ length xs
    → cancel_loop task_id (length ys) i (with_tasks d (xs ++ ys))
      ≡ paired d xs (task_cancel task_id ys)
unfolding cancel_loop task_cancel
cancel_loop_lem task_id d xs [] i h = refl
cancel_loop_lem task_id d xs (y ∷ ys) i h = elim (Bool-cases (matches task_id y)) [
  | inl hit ↦
      tested hit
      ∙ ap (λ ts. (ok, with_tasks d ts)) (modify-append xs ys y i cancel_task h)
      ∙ sym (found hit)
  | inr miss ↦
      tested miss
      ∙ ap (λ ts. cancel_loop task_id (length ys) (suc i) (with_tasks d ts)) (append_snoc xs ys y)
      ∙ cancel_loop_lem task_id d (xs ++ y ∷ []) ys (suc i)
          (omega (arith, h, length-append xs (y ∷ [])))
      ∙ ap (λ ts. ((task_cancel task_id ys).0, with_tasks d ts))
          (sym (append_snoc xs (task_cancel task_id ys).1 y))
      ∙ sym (found miss)
]
  where
    tested :
        {b : Bool}
        → matches task_id y ≡ b
        → cancel_loop task_id (length (y ∷ ys)) i (with_tasks d (xs ++ y ∷ ys)) ≡ (
            if b
            then (ok, set_task (with_tasks d (xs ++ y ∷ ys)) i cancel_task)
            else cancel_loop task_id (length ys) (suc i) (with_tasks d (xs ++ y ∷ ys)))
    tested e =
        ap
          (λ c.
            if c
            then (ok, set_task (with_tasks d (xs ++ y ∷ ys)) i cancel_task)
            else cancel_loop task_id (length ys) (suc i) (with_tasks d (xs ++ y ∷ ys)))
          (ap (matches task_id) (get_or-append xs ys y i h) ∙ e)

    found :
        {b : Bool}
        → matches task_id y ≡ b
        → paired d xs (task_cancel task_id (y ∷ ys))
          ≡ paired d xs (
              if b
              then (ok, cancel_task y ∷ ys)
              else ((task_cancel task_id ys).0, y ∷ (task_cancel task_id ys).1))
    found e =
        ap
          (λ c. paired d xs (
            if c
            then (ok, cancel_task y ∷ ys)
            else ((task_cancel task_id ys).0, y ∷ (task_cancel task_id ys).1)))
          e

module _ (user : UserMemory) (clock : Clock) where
  -- What task_query does with what it finds.
  abbrev pub answer : user.Mem → ℕ → Option Task → Ret × user.Mem
  answer m ustatus none = (fail enoent, m)
  answer m ustatus (some t) =
      copied user clock (user.copy_to_user task_status m ustatus (status_of clock t))

  pub query_loop_lem :
      (task_id : ℕ) (m : user.Mem) (ustatus : ℕ) (d : Dev) (xs ys : List Task) (i : ℕ)
      → i ≡ length xs
      → d.pool.tasks ≡ xs ++ ys
      → query_loop user clock task_id m ustatus (length ys) i d
        ≡ answer m ustatus (find_task task_id ys)
  unfolding query_loop find_task
  query_loop_lem task_id m ustatus d xs [] i h q = refl
  query_loop_lem task_id m ustatus d xs (y ∷ ys) i h q =
      ap₂
        (λ t later.
          if matches task_id t
          then copied user clock (user.copy_to_user task_status m ustatus (status_of clock t))
          else later)
        (ap (λ ts. get_or ts i zero_task) q ∙ get_or-append xs ys y i h)
        (query_loop_lem task_id m ustatus d (xs ++ y ∷ []) ys (suc i)
          (omega (arith, h, length-append xs (y ∷ []))) (q ∙ append_snoc xs ys y))
      ∙ elim (Bool-cases (matches task_id y)) [
        | inl hit ↦ ground (arith, hit)
        | inr miss ↦ ground (arith, miss)
      ]
