-- ===== src/Registry/Service/Ports.antt =====
-- The functions of Go's package `slices` that the service registry applies to its port lists, and
-- what they do to the set of ports.
use car_integrated_service_m.Prelude.{
  ℕ, zero, suc, ℤ, eqb_ℤ, eqb_ℤ_iff, ltb_ℤ, ◌≤ℤ◌, ◌<ℤ◌, Bool, true, false, List, [], ◌∷◌, ◌++◌,
  Option, none, some, if◌then◌else◌, ◌≡◌, refl, ◌∙◌, arith, All,
}

insert_sorted : ℤ → List ℤ → List ℤ
insert_sorted p [] = p ∷ []
insert_sorted p (x ∷ xs) =
    let rest = insert_sorted p xs in if ltb_ℤ x p then x ∷ rest else p ∷ x ∷ xs

-- `slices.Sort`: equal numbers cannot be told apart, so every sort has this result.
unfoldable pub sort : List ℤ → List ℤ
unfolding insert_sorted
sort [] = []
sort (x ∷ xs) = insert_sorted x (sort xs)

compact_from : ℤ → List ℤ → List ℤ
compact_from x [] = x ∷ []
compact_from x (y ∷ ys) =
    let rest = compact_from y ys in
    let same = compact_from x ys in if eqb_ℤ x y then same else x ∷ rest

-- `slices.Compact`: of a run of equal elements, the first stays.
unfoldable pub compact : List ℤ → List ℤ
unfolding compact_from
compact [] = []
compact (x ∷ xs) = compact_from x xs

-- `slices.Index`; `none` is -1.
unfoldable pub index : List ℤ → ℤ → Option ℕ
index [] p = none
index (x ∷ xs) p =
    let rest = index xs p in
    if eqb_ℤ p x then some 0 else elim rest [ none ↦ none | some i ↦ some (suc i) ]

-- `slices.Delete(ports, i, i+1)`
unfoldable pub delete : List ℤ → ℕ → List ℤ
delete [] i = []
delete (x ∷ xs) zero = xs
delete (x ∷ xs) (suc i) = x ∷ delete xs i

-- Whether a port is in a list.
abbrev pub contains : List ℤ → ℤ → Bool
contains [] p = false
contains (x ∷ xs) p = if eqb_ℤ p x then true else contains xs p

abbrev IsSorted : List ℤ → Type 0
IsSorted [] = Unit
IsSorted (x ∷ xs) = All (λ y. x ≤ℤ y) xs × IsSorted xs

-- Strictly ascending: sorted, and no port twice.
abbrev pub IsAscending : List ℤ → Type 0
IsAscending [] = Unit
IsAscending (x ∷ xs) = All (λ y. x <ℤ y) xs × IsAscending xs

le_weaken : (x y : ℤ) (xs : List ℤ) → x ≤ℤ y → All (λ z. y ≤ℤ z) xs → All (λ z. x ≤ℤ z) xs
le_weaken x y [] h a = tt
le_weaken x y (z ∷ xs) h a = (omega arith, le_weaken x y xs h a.1)

All-insert_sorted :
    (b p : ℤ) (xs : List ℤ) → b ≤ℤ p → All (λ y. b ≤ℤ y) xs → All (λ y. b ≤ℤ y) (insert_sorted p xs)
unfolding insert_sorted
All-insert_sorted b p [] h a = (h, tt)
All-insert_sorted b p (x ∷ xs) h a = ground (arith, All-insert_sorted b p xs h a.1)

insert_sorted-IsSorted : (p : ℤ) (xs : List ℤ) → IsSorted xs → IsSorted (insert_sorted p xs)
unfolding insert_sorted
insert_sorted-IsSorted p [] s = (tt, tt)
insert_sorted-IsSorted p (x ∷ xs) s =
    ground (arith, insert_sorted-IsSorted p xs s.1, All-insert_sorted x p xs, le_weaken p x xs)

sort-IsSorted : (xs : List ℤ) → IsSorted (sort xs)
unfolding sort
sort-IsSorted [] = tt
sort-IsSorted (x ∷ xs) = insert_sorted-IsSorted x (sort xs) (sort-IsSorted xs)

contains-insert_sorted :
    (p q : ℤ) (xs : List ℤ)
    → contains (insert_sorted p xs) q ≡ (if eqb_ℤ q p then true else contains xs q)
unfolding insert_sorted
contains-insert_sorted p q [] = refl
contains-insert_sorted p q (x ∷ xs) = ground (arith, contains-insert_sorted p q xs)

contains-sort : (q : ℤ) (xs : List ℤ) → contains (sort xs) q ≡ contains xs q
unfolding sort
contains-sort q [] = refl
contains-sort q (x ∷ xs) = ground (arith, contains-insert_sorted x q (sort xs), contains-sort q xs)

All-compact_from :
    (b x : ℤ) (xs : List ℤ)
    → b <ℤ x
    → All (λ y. x ≤ℤ y) xs
    → IsSorted xs
    → All (λ y. b <ℤ y) (compact_from x xs)
unfolding compact_from
All-compact_from b x [] h a s = (h, tt)
All-compact_from b x (y ∷ ys) h a s =
    ground (arith, All-compact_from b x ys h a.1 s.1, All-compact_from b y ys (omega arith) s.0 s.1)

compact_from-IsAscending :
    (x : ℤ) (xs : List ℤ) → All (λ y. x ≤ℤ y) xs → IsSorted xs → IsAscending (compact_from x xs)
unfolding compact_from
compact_from-IsAscending x [] a s = (tt, tt)
compact_from-IsAscending x (y ∷ ys) a s = ground (
  arith,
  compact_from-IsAscending x ys a.1 s.1,
  compact_from-IsAscending y ys s.0 s.1,
  λ (lt : x <ℤ y). All-compact_from x y ys lt s.0 s.1,
)

contains-compact_from :
    (x q : ℤ) (xs : List ℤ)
    → contains (compact_from x xs) q ≡ (if eqb_ℤ q x then true else contains xs q)
unfolding compact_from
contains-compact_from x q [] = refl
contains-compact_from x q (y ∷ ys) =
    ground (arith, eqb_ℤ_iff x y, contains-compact_from x q ys, contains-compact_from y q ys)

-- What registration stores is strictly ascending, and holds the same ports.
pub compact-sort-IsAscending : (xs : List ℤ) → IsAscending (compact (sort xs))
unfolding compact
compact-sort-IsAscending xs = of_sorted (sort xs) (sort-IsSorted xs)
  where
    of_sorted : (ys : List ℤ) → IsSorted ys → IsAscending (compact ys)
    of_sorted [] s = tt
    of_sorted (y ∷ ys) s = compact_from-IsAscending y ys s.0 s.1

pub contains-compact-sort : (q : ℤ) (xs : List ℤ) → contains (compact (sort xs)) q ≡ contains xs q
unfolding compact
contains-compact-sort q xs = same (sort xs) ∙ contains-sort q xs
  where
    same : (ys : List ℤ) → contains (compact ys) q ≡ contains ys q
    same [] = refl
    same (y ∷ ys) = contains-compact_from y q ys

pub contains-append :
    (xs : List ℤ) (p q : ℤ)
    → contains (xs ++ p ∷ []) q ≡ (if eqb_ℤ q p then true else contains xs q)
contains-append [] p q = refl
contains-append (x ∷ xs) p q = ground (arith, contains-append xs p q)

-- A port below all of a list is not in it.
not-contains : (p : ℤ) (xs : List ℤ) → All (λ y. p <ℤ y) xs → contains xs p ≡ false
not-contains p [] a = refl
not-contains p (x ∷ xs) a = ground (arith, not-contains p xs a.1)

All-delete : (b : ℤ) (xs : List ℤ) (i : ℕ) → All (λ y. b <ℤ y) xs → All (λ y. b <ℤ y) (delete xs i)
unfolding delete
All-delete b [] i a = tt
All-delete b (x ∷ xs) zero a = a.1
All-delete b (x ∷ xs) (suc i) a = (a.0, All-delete b xs i a.1)

pub delete-IsAscending : (xs : List ℤ) (i : ℕ) → IsAscending xs → IsAscending (delete xs i)
unfolding delete
delete-IsAscending [] i a = tt
delete-IsAscending (x ∷ xs) zero a = a.1
delete-IsAscending (x ∷ xs) (suc i) a = (All-delete x xs i a.0, delete-IsAscending xs i a.1)

-- From a strictly ascending list the found port goes, and no other.
pub contains-delete-index :
    (xs : List ℤ) (p q : ℤ) (i : ℕ)
    → IsAscending xs
    → index xs p ≡ some i
    → contains (delete xs i) q ≡ (if eqb_ℤ q p then false else contains xs q)
unfolding delete index
contains-delete-index [] p q i a h = cc
contains-delete-index (x ∷ xs) p q zero a h =
    ground (arith, eqb_ℤ_iff p x, eqb_ℤ_iff q p, not-contains x xs a.0)
contains-delete-index (x ∷ xs) p q (suc i) a h =
    ground (arith, eqb_ℤ_iff q p, eqb_ℤ_iff q x, contains-delete-index xs p q i a.1)

pub contains-index-none :
    (xs : List ℤ) (p q : ℤ)
    → index xs p ≡ none
    → contains xs q ≡ (if eqb_ℤ q p then false else contains xs q)
unfolding index
contains-index-none [] p q h = ground arith
contains-index-none (x ∷ xs) p q h = ground (arith, eqb_ℤ_iff q p, contains-index-none xs p q)
