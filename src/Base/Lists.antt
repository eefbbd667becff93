-- ===== src/Base/Lists.antt =====
-- C arrays and intrusive lists as lists with native indices.
use Prim.Native.Nat.{ℕ, zero, suc, ◌+◌, ◌<◌}
use mathlib.Core.Path.{◌≡◌, refl, ap}
use mathlib.Core.Logic.{◌≢◌}
use mathlib.Core.List.{List, [], ◌∷◌, ◌++◌}
use mathlib.Core.Option.{Option, none, some}
use native.Mathlib.Omega.{arith}

module _ {ℓ} {A : Type ℓ} where
  abbrev pub length : List A → ℕ
  length [] = 0
  length (x ∷ xs) = suc (length xs)

  abbrev pub get_elem? : List A → ℕ → Option A
  get_elem? [] i = none
  get_elem? (x ∷ xs) zero = some x
  get_elem? (x ∷ xs) (suc i) = get_elem? xs i

  abbrev pub get_or : List A → ℕ → A → A
  get_or [] i d = d
  get_or (x ∷ xs) zero d = x
  get_or (x ∷ xs) (suc i) d = get_or xs i d

  -- An update of one element; out of bounds it changes nothing.
  abbrev pub modify : List A → ℕ → (A → A) → List A
  modify [] i f = []
  modify (x ∷ xs) zero f = f x ∷ xs
  modify (x ∷ xs) (suc i) f = x ∷ modify xs i f

  abbrev pub replicate : ℕ → A → List A
  replicate zero a = []
  replicate (suc n) a = a ∷ replicate n a

module _ {ℓ} {A : Type ℓ} where
  pub length-append : (xs ys : List A) → length (xs ++ ys) ≡ length xs + length ys
  length-append [] ys = omega arith
  length-append (x ∷ xs) ys = omega (arith, length-append xs ys)

  pub length-modify : (xs : List A) (i : ℕ) (f : A → A) → length (modify xs i f) ≡ length xs
  length-modify [] i f = refl
  length-modify (x ∷ xs) zero f = refl
  length-modify (x ∷ xs) (suc i) f = ap suc (length-modify xs i f)

  pub length-replicate : (n : ℕ) (a : A) → length (replicate n a) ≡ n
  length-replicate zero a = refl
  length-replicate (suc n) a = ap suc (length-replicate n a)

  pub get_or-modify_self :
      (xs : List A) (i : ℕ) (f : A → A) (d : A)
      → i < length xs
      → get_or (modify xs i f) i d ≡ f (get_or xs i d)
  get_or-modify_self [] i f d h = elim h [ ]
  get_or-modify_self (x ∷ xs) zero f d h = refl
  get_or-modify_self (x ∷ xs) (suc i) f d h = get_or-modify_self xs i f d (omega arith)

  pub get_or-modify_ne :
      (xs : List A) (i j : ℕ) (f : A → A) (d : A)
      → i ≢ j
      → get_or (modify xs i f) j d ≡ get_or xs j d
  get_or-modify_ne [] i j f d h = refl
  get_or-modify_ne (x ∷ xs) zero zero f d h = absurd (h refl)
  get_or-modify_ne (x ∷ xs) zero (suc j) f d h = refl
  get_or-modify_ne (x ∷ xs) (suc i) zero f d h = refl
  get_or-modify_ne (x ∷ xs) (suc i) (suc j) f d h = get_or-modify_ne xs i j f d (λ e. h (ap suc e))

  -- What an update keeps of every element, it keeps at every index.
  pub get_or-modify_map {κ} :
      {B : Type κ} (g : A → B) (xs : List A) (i j : ℕ) (f : A → A) (d : A)
      → ((x : A) → g (f x) ≡ g x)
      → g (get_or (modify xs i f) j d) ≡ g (get_or xs j d)
  get_or-modify_map g [] i j f d h = refl
  get_or-modify_map g (x ∷ xs) zero zero f d h = h x
  get_or-modify_map g (x ∷ xs) zero (suc j) f d h = refl
  get_or-modify_map g (x ∷ xs) (suc i) zero f d h = refl
  get_or-modify_map g (x ∷ xs) (suc i) (suc j) f d h = get_or-modify_map g xs i j f d h

  pub modify-modify :
      (xs : List A) (i : ℕ) (f g : A → A) → modify (modify xs i f) i g ≡ modify xs i (λ x. g (f x))
  modify-modify [] i f g = refl
  modify-modify (x ∷ xs) zero f g = refl
  modify-modify (x ∷ xs) (suc i) f g = ap (◌∷◌ x) (modify-modify xs i f g)

  pub get_or-replicate : (n i : ℕ) (a : A) → get_or (replicate n a) i a ≡ a
  get_or-replicate zero i a = refl
  get_or-replicate (suc n) zero a = refl
  get_or-replicate (suc n) (suc i) a = get_or-replicate n i a

-- The indices from `k` on, `n` of them.
abbrev pub count_from : ℕ → ℕ → List ℕ
count_from k zero = []
count_from k (suc n) = k ∷ count_from (suc k) n

pub length-count_from : (k n : ℕ) → length (count_from k n) ≡ n
length-count_from k zero = refl
length-count_from k (suc n) = ap suc (length-count_from (suc k) n)
