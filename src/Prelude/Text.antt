-- ===== src/Prelude/Text.antt =====
-- Go strings as lists of bytes: equality, prefixes and suffixes, and the functions of the package
-- `strings` that the program calls.
use Prim.Native.Char.{code}
use Prim.Native.String.{String}
use Prim.Native.Nat.{ℕ}
use mathlib.Core.Path.{◌≡◌, refl}
use mathlib.Core.Logic.{◌↔◌}
use mathlib.Core.Bool.{Bool, true, false, ◌&&◌}
use mathlib.Core.List.{List, [], ◌∷◌, ◌++◌, reverse}
use native.Mathlib.Omega.{arith}
use car_integrated_service_m.Prelude.Tests.{◌==◌, if◌then◌else◌}
use car_integrated_service_m.Prelude.Lists.{Lacks, last_or}

abbrev pub Bytes : Type 0
Bytes = List ℕ

-- The bytes of an ASCII literal.
abbrev pub codes : String → Bytes
codes String.[] = []
codes (String.◌∷◌ c s) = code c ∷ codes s

unfoldable pub text_eq : Bytes → Bytes → Bool
text_eq [] [] = true
text_eq [] (d ∷ t) = false
text_eq (c ∷ s) [] = false
text_eq (c ∷ s) (d ∷ t) = c == d && text_eq s t

pub text_eq_refl : (s : Bytes) → text_eq s s ≡ true
unfolding text_eq
text_eq_refl [] = refl
text_eq_refl (c ∷ s) = ground (arith, text_eq_refl s)

text_eq_sound : (s t : Bytes) → text_eq s t ≡ true → s ≡ t
unfolding text_eq
text_eq_sound [] [] h = refl
text_eq_sound [] (d ∷ t) h = cc
text_eq_sound (c ∷ s) [] h = cc
text_eq_sound (c ∷ s) (d ∷ t) h = ground (arith, text_eq_sound s t)

pub text_eq_iff : (s t : Bytes) → (text_eq s t ≡ true) ↔ (s ≡ t)
text_eq_iff s t = (text_eq_sound s t, λ e. rw e (text_eq_refl t))

-- `strings.HasPrefix` and `strings.HasSuffix`.
unfoldable pub has_prefix : Bytes → Bytes → Bool
has_prefix s [] = true
has_prefix [] (c ∷ p) = false
has_prefix (d ∷ s) (c ∷ p) = d == c && has_prefix s p

unfoldable pub has_suffix : Bytes → Bytes → Bool
unfolding has_prefix
has_suffix s p = has_prefix (reverse s) (reverse p)

-- `strings.Split` at one byte: the first part, and the parts behind it. There is always a first.
unfoldable pub split : ℕ → Bytes → Bytes × List Bytes
split sep [] = ([], [])
split sep (c ∷ s) = let (p, ps) = split sep s in if c == sep then ([], p ∷ ps) else (c ∷ p, ps)

-- `s[len(s)-1]` of the result of a split.
unfoldable pub last_part : Bytes × List Bytes → Bytes
last_part (p, ps) = last_or p ps

-- The texts with a separator between each two.
abbrev pub join : Bytes → List Bytes → Bytes
join sep [] = []
join sep (s ∷ []) = s
join sep (s ∷ t ∷ ss) = s ++ (sep ++ join sep (t ∷ ss))

module _ (sep : ℕ) where
  pub split-Lacks : (s : Bytes) → Lacks sep s → split sep s ≡ (s, [])
  unfolding split
  split-Lacks [] h = refl
  split-Lacks (c ∷ s) h = ground (arith, split-Lacks s h.1)

  split_behind : (p s h : Bytes) → last_or h (split sep (p ++ sep ∷ s)).1 ≡ last_part (split sep s)
  unfolding split last_part
  split_behind [] s h = ground arith
  split_behind (c ∷ p) s h =
      ground (arith, split_behind p s h, split_behind p s (split sep (p ++ sep ∷ s)).0)

  -- Behind a separator, only what follows it decides the last part.
  pub last_part-split :
      (p s : Bytes) → last_part (split sep (p ++ sep ∷ s)) ≡ last_part (split sep s)
  unfolding last_part
  last_part-split p s = split_behind p s (split sep (p ++ sep ∷ s)).0

  Lacks-split :
      (s h : Bytes)
      → Lacks sep h
      → Lacks sep (split sep s).0 × Lacks sep (last_or h (split sep s).1)
  unfolding split
  Lacks-split [] h lacks = (tt, lacks)
  Lacks-split (c ∷ s) h lacks = ground (
    arith,
    Lacks-split s [] tt,
    Lacks-split s h lacks,
    Lacks-split s (split sep s).0 (Lacks-split s [] tt).0,
  )

  pub last_part-Lacks : (s : Bytes) → Lacks sep (last_part (split sep s))
  unfolding last_part
  last_part-Lacks s = (Lacks-split s _ (Lacks-split s [] tt).0).1
