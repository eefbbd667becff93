-- ===== src/CString.antt =====
-- C's strncpy into a buffer of bytes, and the text that a buffer holds. A C string is the list of its
-- bytes before the terminating NUL.
use cortex_forge_driver.Base.{
  ℕ, zero, suc, List, [], ◌∷◌, ◌≡◌, ◌≢◌, refl, ap, arith, ◌==◌, if◌then◌else◌, replicate, length,
}

-- At most `n` bytes; a shorter text is padded with NULs up to `n`. The list is the destination.
unfoldable pub strncpy : ℕ → List ℕ → List ℕ → List ℕ
strncpy zero src dst = dst
strncpy (suc n) src [] = []
strncpy (suc n) [] (d ∷ dst) = 0 ∷ strncpy n [] dst
strncpy (suc n) (c ∷ src) (d ∷ dst) = c ∷ strncpy n src dst

-- The bytes before the first NUL.
abbrev pub text_of : List ℕ → List ℕ
text_of [] = []
text_of (c ∷ cs) = if c == 0 then [] else c ∷ text_of cs

abbrev pub take : ℕ → List ℕ → List ℕ
take zero cs = []
take (suc n) [] = []
take (suc n) (c ∷ cs) = c ∷ take n cs

-- No byte of a text is NUL.
abbrev pub IsText : List ℕ → Type 0
IsText [] = Unit {0}
IsText (c ∷ cs) = (c ≢ 0) × IsText cs

text_of-zeros : (n : ℕ) → text_of (replicate n 0) ≡ []
text_of-zeros zero = refl
text_of-zeros (suc n) = refl

strncpy-nil : (n m : ℕ) → text_of (strncpy n [] (replicate m 0)) ≡ []
unfolding strncpy
strncpy-nil zero m = text_of-zeros m
strncpy-nil (suc n) zero = refl
strncpy-nil (suc n) (suc m) = refl

pub text_of-strncpy :
    (n : ℕ) (src : List ℕ) → IsText src → text_of (strncpy n src (replicate (suc n) 0)) ≡ take n src
unfolding strncpy
text_of-strncpy zero src h = refl
text_of-strncpy (suc n) [] h = refl
text_of-strncpy (suc n) (c ∷ src) h = ground (arith, text_of-strncpy n src h.1)

pub length-strncpy : (n : ℕ) (src dst : List ℕ) → length (strncpy n src dst) ≡ length dst
unfolding strncpy
length-strncpy zero src dst = refl
length-strncpy (suc n) src [] = refl
length-strncpy (suc n) [] (d ∷ dst) = ap suc (length-strncpy n [] dst)
length-strncpy (suc n) (c ∷ src) (d ∷ dst) = ap suc (length-strncpy n src dst)
