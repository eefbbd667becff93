-- ===== src/Base/Family.antt =====
-- Families indexed by accelerator: a write at one index.
use Prim.Native.Nat.{ℕ}
use mathlib.Core.Path.{◌≡◌, subst}
use mathlib.Core.Logic.{ite, ◌≢◌}
use native.Mathlib.Decide.{ℕ_discrete}
use native.Mathlib.Omega.{arith}

module _ {ℓ} {A : Type ℓ} where
  abbrev pub write : (ℕ → A) → ℕ → A → ℕ → A
  write f i a j = ite (ℕ_discrete i j) a (f j)

  pub write_self : (f : ℕ → A) (i : ℕ) (a : A) → write f i a i ≡ a
  write_self f i a = ground arith

  pub write_ne : (f : ℕ → A) (i j : ℕ) (a : A) → i ≢ j → write f i a j ≡ f j
  write_ne f i j a ne = ground arith

  pub write_same : (f : ℕ → A) (i j : ℕ) → write f i (f i) j ≡ f j
  write_same f i j = elim (ℕ_discrete i j) [
    | yes e ↦ subst (λ k. write f i (f i) k ≡ f k) e (write_self f i (f i))
    | no ne ↦ write_ne f i j (f i) ne
  ]
