-- ===== src/Logging/Callers.antt =====
-- The file that stands with a message is named without its folders.
use car_integrated_service_m.Prelude.{
  ℕ, zero, suc, ◌+◌, ℤ, itoa_int, codes, Bytes, List, [], ◌∷◌, ◌++◌, Option, none, some, length,
  get_elem?, drop, Lacks, ◌≡◌, ◌≢◌, refl, arith, sym, ap, ◌∙◌, length-append,
}
use car_integrated_service_m.Logging.{short_from, marshal_caller}

module _ {ℓ} {A : Type ℓ} where
  get_elem?-here :
      (xs : List A) (y : A) (ys : List A) → get_elem? (xs ++ y ∷ ys) (length xs) ≡ some y
  get_elem?-here [] y ys = refl
  get_elem?-here (x ∷ xs) y ys = get_elem?-here xs y ys

  get_elem?-past :
      (xs : List A) (y : A) (ys : List A) (i k : ℕ)
      → i ≡ suc (length xs + k)
      → get_elem? (xs ++ y ∷ ys) i ≡ get_elem? ys k
  get_elem?-past xs y ys zero k same = absurd (omega arith)
  get_elem?-past [] y ys (suc i) k same = ap (get_elem? ys) (omega arith)
  get_elem?-past (x ∷ xs) y ys (suc i) k same = get_elem?-past xs y ys i k (omega arith)

  drop-past : (xs : List A) (y : A) (ys : List A) → drop (suc (length xs)) (xs ++ y ∷ ys) ≡ ys
  drop-past [] y ys = refl
  drop-past (x ∷ xs) y ys = drop-past xs y ys

Lacks-get_elem? : (c : ℕ) (s : Bytes) (k d : ℕ) → Lacks c s → get_elem? s k ≡ some d → d ≢ c
Lacks-get_elem? c [] k d h found = absurd cc
Lacks-get_elem? c (e ∷ s) zero d h found = λ same. h.0 cc
Lacks-get_elem? c (e ∷ s) (suc k) d h found = Lacks-get_elem? c s k d h.1 found

-- The loop goes on where there is no slash.
short_from-skip :
    (file : Bytes) (i : ℕ)
    → ((d : ℕ) → get_elem? file (suc i) ≡ some d → d ≢ b'/')
    → short_from file (suc i) ≡ short_from file i
unfolding short_from
short_from-skip file i h = at (get_elem? file (suc i)) refl
  where
    at : (o : Option ℕ) → get_elem? file (suc i) ≡ o → short_from file (suc i) ≡ short_from file i
    at none g = rw (short_from, g) refl
    at (some d) g = let differs = h d g in ground arith

short_from-stop :
    (file : Bytes) (i : ℕ)
    → get_elem? file (suc i) ≡ some b'/'
    → short_from file (suc i) ≡ drop (suc (suc i)) file
unfolding short_from
short_from-stop file i h = rw (short_from, h) refl

-- The loop over a path ends at its last slash, unless that is its first byte.
short_from-folder :
    (c : ℕ) (dir name : Bytes) (i k : ℕ)
    → Lacks b'/' name
    → i ≡ suc (length dir) + k
    → short_from (c ∷ dir ++ b'/' ∷ name) i ≡ name
short_from-folder c dir name zero k h same = absurd (omega arith)
short_from-folder c dir name (suc i) zero h same =
    let at_dir : i ≡ length dir = omega arith in
    short_from-stop _ i (ap (get_elem? (dir ++ b'/' ∷ name)) at_dir ∙ get_elem?-here dir b'/' name)
    ∙ ap (λ j. drop (suc j) (dir ++ b'/' ∷ name)) at_dir
    ∙ drop-past dir b'/' name
short_from-folder c dir name (suc i) (suc k) h same =
    short_from-skip _ i (λ d found.
      Lacks-get_elem? b'/' name k d h
        (sym (get_elem?-past dir b'/' name i k (omega arith)) ∙ found))
    ∙ short_from-folder c dir name i k h (omega arith)

-- It goes through a path without such a slash.
short_from-plain : (c : ℕ) (s : Bytes) (i : ℕ) → Lacks b'/' s → short_from (c ∷ s) i ≡ c ∷ s
short_from-plain c s zero h = unfold short_from in refl
short_from-plain c s (suc i) h =
    short_from-skip _ i (λ d found. Lacks-get_elem? b'/' s i d h found) ∙ short_from-plain c s i h

-- A caller is named by the part of its path behind the last slash, and by all of it where there is
-- no slash beyond the first byte; with the line.
pub marshal_caller_lem :
    (c : ℕ) (dir name : Bytes) (line : ℤ)
    → Lacks b'/' name
    → (marshal_caller (c ∷ dir ++ b'/' ∷ name) line ≡ name ++ codes ":" ++ itoa_int line)
      × (marshal_caller (c ∷ name) line ≡ c ∷ name ++ codes ":" ++ itoa_int line)
unfolding marshal_caller
marshal_caller_lem c dir name line h = (
  ap (λ s. s ++ codes ":" ++ itoa_int line)
      (short_from-folder c dir name _ (length name) h
        (omega (arith, length-append dir (b'/' ∷ name)))),
  ap (λ s. s ++ codes ":" ++ itoa_int line) (short_from-plain c name _ h),
)
