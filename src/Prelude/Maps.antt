-- ===== src/Prelude/Maps.antt =====
-- Go's maps with text keys, as association lists. A `range` loop visits a map in an order that Go
-- leaves open, so an operation that ranges takes the sequence of entries it visits as an argument;
-- `IsListing` says that such a sequence is a full visit of the map.
use mathlib.Core.Path.{◌≡◌, refl}
use mathlib.Core.List.{List, [], ◌∷◌}
use mathlib.Core.Option.{Option, none, some}
use native.Mathlib.Omega.{arith}
use car_integrated_service_m.Prelude.Tests.{if◌then◌else◌}
use car_integrated_service_m.Prelude.Text.{Bytes, text_eq, text_eq_iff}

abbrev pub Assoc {ℓ} : Type ℓ → Type ℓ
Assoc V = List (Bytes × V)

module _ {ℓ} {V : Type ℓ} where
  unfoldable pub lookup : Bytes → Assoc V → Option V
  lookup k [] = none
  lookup k ((j, v) ∷ m) = if text_eq j k then some v else lookup k m

  -- `m[k] = v`
  unfoldable pub insert : Bytes → V → Assoc V → Assoc V
  insert k v [] = (k, v) ∷ []
  insert k v ((j, w) ∷ m) = if text_eq j k then (k, v) ∷ m else (j, w) ∷ insert k v m

  -- `delete(m, k)`
  unfoldable pub erase : Bytes → Assoc V → Assoc V
  erase k [] = []
  erase k ((j, w) ∷ m) = let rest = erase k m in if text_eq j k then rest else (j, w) ∷ rest

  -- No key stands twice.
  abbrev pub IsUnique : Assoc V → Type ℓ
  IsUnique [] = Unit
  IsUnique ((k, v) ∷ m) = (lookup k m ≡ none) × IsUnique m

  pub lookup-insert :
      (k j : Bytes) (v : V) (m : Assoc V)
      → lookup j (insert k v m) ≡ (if text_eq k j then some v else lookup j m)
  unfolding lookup insert
  lookup-insert k j v [] = refl
  lookup-insert k j v ((i, w) ∷ m) =
      ground (arith, text_eq_iff k j, text_eq_iff i k, text_eq_iff i j, lookup-insert k j v m)

  pub lookup-erase :
      (k j : Bytes) (m : Assoc V)
      → lookup j (erase k m) ≡ (if text_eq k j then none else lookup j m)
  unfolding lookup erase
  lookup-erase k j [] = ground arith
  lookup-erase k j ((i, w) ∷ m) =
      ground (arith, text_eq_iff k j, text_eq_iff i k, text_eq_iff i j, lookup-erase k j m)

  pub insert-IsUnique : (k : Bytes) (v : V) (m : Assoc V) → IsUnique m → IsUnique (insert k v m)
  unfolding insert lookup
  insert-IsUnique k v [] u = (refl, tt)
  insert-IsUnique k v ((i, w) ∷ m) u =
      ground
        (arith, text_eq_iff i k, text_eq_iff k i, insert-IsUnique k v m u.1, lookup-insert k i v m)

  pub erase-IsUnique : (k : Bytes) (m : Assoc V) → IsUnique m → IsUnique (erase k m)
  unfolding erase lookup
  erase-IsUnique k [] u = tt
  erase-IsUnique k ((i, w) ∷ m) u =
      ground (arith, text_eq_iff k i, erase-IsUnique k m u.1, lookup-erase k i m)

-- `visit` holds every entry of the map once: what one `range` loop over it sees.
pub record IsListing {ℓ} {V : Type ℓ} (visit m : Assoc V) : Type ℓ where
  pub unique : IsUnique visit
  pub same : (k : Bytes) → lookup k visit ≡ lookup k m

pub IsListing-refl {ℓ} : {V : Type ℓ} {m : Assoc V} → IsUnique m → IsListing m m
IsListing-refl u = record { unique = u; same = λ k. refl }
