-- ===== src/System/Fifo.antt =====
-- What an accelerator has begun, and what waits in its queue, are in order the tasks that were
-- submitted to it.
use cortex_forge_driver.Base.{
  ℕ, zero, suc, ◌+◌, ◌≤◌, ◌<◌, ◌≡◌, ◌||◌, List, [], ◌∷◌, Bool, true, false, refl, arith, ap₂, sym,
  subst, ◌∙◌, length, if◌then◌else◌, Bool-cases, inl, inr, ℕ_discrete,
}
use cortex_forge_driver.System.Order.{Between, Between-le, Falling, after_latest}
use cortex_forge_driver.System.Placement.{has}
use cortex_forge_driver.System.Waiting.{has-Between-le}

-- A history, the latest first, and a queue as one list, the first first.
abbrev pub in_turn : List ℕ → List ℕ → List ℕ
in_turn [] queue = queue
in_turn (i ∷ log) queue = in_turn log (i ∷ queue)

-- The numbers that pass a test, of `k` numbers from `lo` on.
abbrev pub sieve : (ℕ → Bool) → ℕ → ℕ → List ℕ
sieve f lo zero = []
sieve f lo (suc k) = let rest = sieve f (suc lo) k in if f lo then lo ∷ rest else rest

pub Between-in_turn :
    (log queue : List ℕ) (n : ℕ)
    → Falling log
    → Between (after_latest log) queue n
    → Between 0 (in_turn log queue) n
Between-in_turn [] queue n f b = b
Between-in_turn (i ∷ log) queue n f b = Between-in_turn log (i ∷ queue) n f.1 (f.0, b)

pub has-in_turn :
    (j : ℕ) (log queue : List ℕ) → has j (in_turn log queue) ≡ (has j queue || has j log)
has-in_turn j [] queue = ground arith
has-in_turn j (i ∷ log) queue = has-in_turn j log (i ∷ queue) ∙ ground arith

pub length-in_turn : (log queue : List ℕ) → length (in_turn log queue) ≡ length log + length queue
length-in_turn [] queue = omega arith
length-in_turn (i ∷ log) queue = length-in_turn log (i ∷ queue) ∙ omega arith

abbrev pub drop : ℕ → List ℕ → List ℕ
drop zero xs = xs
drop (suc n) [] = []
drop (suc n) (x ∷ xs) = drop n xs

drop-suc : (n : ℕ) (xs rest : List ℕ) (x : ℕ) → drop n xs ≡ x ∷ rest → drop (suc n) xs ≡ rest
drop-suc zero [] rest x e = cc
drop-suc zero (y ∷ xs) rest x e = cc
drop-suc (suc n) [] rest x e = cc
drop-suc (suc n) (y ∷ xs) rest x e = drop-suc n xs rest x e

pub drop-in_turn : (log queue : List ℕ) → drop (length log) (in_turn log queue) ≡ queue
drop-in_turn [] queue = refl
drop-in_turn (i ∷ log) queue =
    drop-suc (length log) (in_turn log (i ∷ queue)) queue i (drop-in_turn log (i ∷ queue))

-- Nothing below the first number.
not_below : (j lo : ℕ) (xs : List ℕ) (hi : ℕ) → Between lo xs hi → j < lo → has j xs ≡ false
not_below j lo xs hi b lt = elim (Bool-cases (has j xs)) [
  | inl there ↦ absurd (omega (arith, lt, has-Between-le j lo xs hi b there))
  | inr out ↦ out
]

-- A rising list is given by what stands in it.
pub sieve_lem :
    (f : ℕ → Bool) (k lo hi : ℕ) (xs : List ℕ)
    → hi ≡ k + lo
    → Between lo xs hi
    → ((j : ℕ) → lo ≤ j → j < hi → has j xs ≡ f j)
    → xs ≡ sieve f lo k
sieve_lem f zero lo hi [] q b h = refl
sieve_lem f zero lo hi (i ∷ is) q b h = absurd (omega (arith, q, b.0, Between-le (suc i) is hi b.1))
sieve_lem f (suc k) lo hi [] q b h =
    let first : false ≡ f lo = h lo (omega arith) (omega (arith, q)) in
    rw (sym first) (
      sieve_lem f k (suc lo) hi [] (omega (arith, q)) (omega (arith, q))
        (λ j le lt. h j (omega arith) lt))
sieve_lem f (suc k) lo hi (i ∷ is) q b h = elim (ℕ_discrete i lo) [
  | yes same ↦
      let first : true ≡ f lo = ground (arith, same, h lo (omega arith) (omega (arith, q))) in
      rw (sym first) (
        ap₂ (λ x xs. x ∷ xs) same
          (sieve_lem f k (suc lo) hi is (omega (arith, q))
            (subst (λ k. Between (suc k) is hi) same b.1)
            (λ j le lt. ground (arith, same, le, h j (omega arith) lt))))
  | no ne ↦
      let first : false ≡ f lo =
        sym (not_below lo (suc lo) (i ∷ is) hi (omega (arith, b.0, ne), b.1) (omega arith))
        ∙ h lo (omega arith) (omega (arith, q)) in
      rw (sym first) (
        sieve_lem f k (suc lo) hi (i ∷ is) (omega (arith, q)) (omega (arith, b.0, ne), b.1)
          (λ j le lt. h j (omega arith) lt))
]
