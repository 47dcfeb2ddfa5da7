-- ===== src/Prelude/Slices.antt =====
-- Slices of texts, and the index of a byte in a text.
use Prim.Native.Nat.{ℕ, zero, suc}
use mathlib.Core.Path.{◌≡◌, refl}
use mathlib.Core.List.{List, [], ◌∷◌, ◌++◌}
use mathlib.Core.Option.{Option, none, some}
use native.Mathlib.Omega.{arith}
use car_integrated_service_m.Prelude.Tests.{◌==◌, leb, if◌then◌else◌}
use car_integrated_service_m.Prelude.Lists.{length, Lacks}
use car_integrated_service_m.Prelude.Text.{Bytes}
use car_integrated_service_m.Prelude.Outcomes.{Outcome, ok, panic}

module _ {ℓ} {A : Type ℓ} where
  abbrev pub take : ℕ → List A → List A
  take zero xs = []
  take (suc n) [] = []
  take (suc n) (x ∷ xs) = x ∷ take n xs

  abbrev pub drop : ℕ → List A → List A
  drop zero xs = xs
  drop (suc n) [] = []
  drop (suc n) (x ∷ xs) = drop n xs

  pub take-length : (xs ys : List A) → take (length xs) (xs ++ ys) ≡ xs
  take-length [] ys = refl
  take-length (x ∷ xs) ys = rw (take-length xs ys)

  pub drop-length : (xs ys : List A) → drop (length xs) (xs ++ ys) ≡ ys
  drop-length [] ys = refl
  drop-length (x ∷ xs) ys = drop-length xs ys

-- `s[:n]`, which panics past the end.
unfoldable pub slice_to {ℓ} : {E : Type ℓ} → ℕ → Bytes → Outcome E Bytes
slice_to n s = if leb n (length s) then ok (take n s) else panic

-- `strings.IndexRune` and `strings.LastIndex` of one byte; `none` is -1.
unfoldable pub index_of : ℕ → Bytes → Option ℕ
index_of c [] = none
index_of c (d ∷ s) =
    let rest = index_of c s in
    if d == c then some 0 else elim rest [ none ↦ none | some i ↦ some (suc i) ]

unfoldable pub last_index : ℕ → Bytes → Option ℕ
last_index c [] = none
last_index c (d ∷ s) = elim (last_index c s) [
  | some i ↦ some (suc i)
  | none ↦ if d == c then some 0 else none
]

module _ (c : ℕ) where
  pub index_of-first : (s t : Bytes) → Lacks c s → index_of c (s ++ c ∷ t) ≡ some (length s)
  unfolding index_of
  index_of-first [] t h = ground arith
  index_of-first (d ∷ s) t h = ground (arith, index_of-first s t h.1)

  pub last_index-none : (s : Bytes) → Lacks c s → last_index c s ≡ none
  unfolding last_index
  last_index-none [] h = refl
  last_index-none (d ∷ s) h = ground (arith, last_index-none s h.1)

  pub last_index-last : (s t : Bytes) → Lacks c t → last_index c (s ++ c ∷ t) ≡ some (length s)
  unfolding last_index
  last_index-last [] t h = ground (arith, last_index-none t h)
  last_index-last (d ∷ s) t h = ground (arith, last_index-last s t h)

  pub last_index-Lacks : (s : Bytes) → last_index c s ≡ none → Lacks c s
  unfolding last_index
  last_index-Lacks [] h = tt
  last_index-Lacks (d ∷ s) h = ground (arith, last_index-Lacks s)

  -- A text that holds the byte splits at its last one.
  pub last_index-split :
      (s : Bytes) (i : ℕ)
      → last_index c s ≡ some i
      → (s ≡ take i s ++ c ∷ drop (suc i) s) × Lacks c (drop (suc i) s)
  unfolding last_index
  last_index-split [] i h = absurd (cc)
  last_index-split (d ∷ s) zero h = ground (arith, last_index-Lacks s)
  last_index-split (d ∷ s) (suc i) h = ground (arith, last_index-split s i)
