-- ===== src/Concurrent/Owned.antt =====
-- The lists that the slots stand on, and where the history says that the slots are.
use cortex_forge_driver.Base.{
  ℕ, List, [], ◌∷◌, ◌++◌, Option, none, some, ◌≡◌, ◌≢◌, ◌∙◌, sym, write, write_self, write_ne,
}
use cortex_forge_driver.Concurrent.{Place}

-- A slot that is not on a list.
abbrev pub Absent : ℕ → List ℕ → Type 0
Absent i [] = Unit {0}
Absent i (j ∷ js) = (i ≢ j) × Absent i js

-- Each slot of a list is on it once, and is where the history says.
abbrev pub Owned : (ℕ → Place) → Place → List ℕ → Type 0
Owned place x [] = Unit {0}
Owned place x (j ∷ js) = (place j ≡ x) × Absent j js × Owned place x js

abbrev pub Held : (ℕ → Place) → Place → Option ℕ → Type 0
Held place x none = Unit {0}
Held place x (some i) = place i ≡ x

-- No slot is on a list twice.
abbrev pub Distinct : List ℕ → Type 0
Distinct [] = Unit {0}
Distinct (j ∷ js) = Absent j js × Distinct js

module _ (place : ℕ → Place) (x : Place) where
  pub Owned-Distinct : (js : List ℕ) → Owned place x js → Distinct js
  Owned-Distinct [] o = tt
  Owned-Distinct (j ∷ js) o = (o.1, Owned-Distinct js o.2)

  -- What is elsewhere is not on the list.
  pub Owned-Absent : (i : ℕ) (js : List ℕ) → place i ≢ x → Owned place x js → Absent i js
  Owned-Absent i [] ne o = tt
  Owned-Absent i (j ∷ js) ne o = (λ e. ne (rw e o.0), Owned-Absent i js ne o.2)

  -- A move of another slot.
  pub Owned-write :
      (i : ℕ) (y : Place) (js : List ℕ)
      → Absent i js
      → Owned place x js
      → Owned (write place i y) x js
  Owned-write i y [] ab o = tt
  Owned-write i y (j ∷ js) ab o =
      (write_ne place i j y ab.0 ∙ o.0, o.1, Owned-write i y js ab.1 o.2)

  pub Held-write :
      (i : ℕ) (y : Place) (o : Option ℕ) → place i ≢ x → Held place x o → Held (write place i y) x o
  Held-write i y none ne h = tt
  Held-write i y (some j) ne h = write_ne place i j y (λ e. ne (rw e h)) ∙ h

Absent-snoc : (i j : ℕ) (js : List ℕ) → i ≢ j → Absent i js → Absent i (js ++ j ∷ [])
Absent-snoc i j [] ne ab = (ne, tt)
Absent-snoc i j (k ∷ js) ne ab = (ab.0, Absent-snoc i j js ne ab.1)

pub Owned-snoc :
    (place : ℕ → Place) (x : Place) (i : ℕ) (js : List ℕ)
    → Absent i js
    → Owned place x js
    → Owned (write place i x) x (js ++ i ∷ [])
Owned-snoc place x i [] ab o = (write_self place i x, tt, tt)
Owned-snoc place x i (j ∷ js) ab o = (
  write_ne place i j x ab.0 ∙ o.0,
  Absent-snoc j i js (λ e. ab.0 (sym e)) o.1,
  Owned-snoc place x i js ab.1 o.2,
)
