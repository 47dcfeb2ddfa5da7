-- ===== src/Prelude/Decimal.antt =====
-- `strconv.Itoa` on the numbers from 0 up, and `strconv.Atoi`. The kind of a parse error is not
-- kept: `none` is any `*strconv.NumError`.
use Prim.Native.Nat.{ℕ, zero, suc, ◌+◌, ◌-◌, ◌*◌, ◌/◌, ◌%◌, ◌^◌, ◌≤◌, ◌<◌}
use mathlib.Core.Path.{◌≡◌, refl, subst}
use mathlib.Core.Logic.{◌≢◌}
use mathlib.Core.Bool.{true, false, ◌&&◌}
use mathlib.Core.List.{[], ◌∷◌, ◌++◌, concat-ne-nil}
use mathlib.Core.Option.{Option, none, some}
use native.Mathlib.Omega.{arith}
use car_integrated_service_m.Prelude.Tests.{ltb, leb, ◌==◌, if◌then◌else◌}
use car_integrated_service_m.Prelude.Lists.{All, All-append, Lacks}
use car_integrated_service_m.Prelude.Text.{Bytes, codes}
use car_integrated_service_m.Prelude.Int.{ℤ, pos, negsuc}

-- One digit for each round, the last digit of `n` at the end. `n + 1` rounds are enough.
digits : ℕ → ℕ → Bytes
digits zero n = []
digits (suc fuel) n = elim (ltb n 10) [
  | true ↦ (b'0' + n) ∷ []
  | false ↦ digits fuel (n / 10) ++ (b'0' + n % 10) ∷ []
]

unfoldable pub itoa : ℕ → Bytes
unfolding digits
itoa n = digits (suc n) n

unfoldable pub itoa_int : ℤ → Bytes
unfolding itoa
itoa_int (pos n) = itoa n
itoa_int (negsuc n) = b'-' ∷ itoa (suc n)

scan : ℕ → Bytes → Option ℕ
scan n [] = some n
scan n (c ∷ s) =
    let rest = scan (n * 10 + (c - b'0')) s in if leb b'0' c && leb c b'9' then rest else none

abbrev pub max_int : ℕ
max_int = 2 ^ 63 - 1

-- A text of digits whose number is at most `bound`.
magnitude : ℕ → Bytes → Option ℕ
unfolding scan
magnitude bound [] = none
magnitude bound (c ∷ s) = elim (scan 0 (c ∷ s)) [
  | none ↦ none
  | some n ↦ if leb n bound then some n else none
]

positive : Option ℕ → Option ℤ
positive none = none
positive (some n) = some (pos n)

negative : Option ℕ → Option ℤ
negative none = none
negative (some zero) = some (pos zero)
negative (some (suc n)) = some (negsuc n)

unfoldable pub atoi : Bytes → Option ℤ
unfolding magnitude positive negative
atoi [] = none
atoi (c ∷ s) =
    if c == b'-'
    then negative (magnitude (2 ^ 63) s)
    else if c == b'+'
    then positive (magnitude max_int s)
    else positive (magnitude max_int (c ∷ s))

atoi_examples :
    (atoi (codes "-42") ≡ some (negsuc 41))
    × (atoi (codes "+7") ≡ some (pos 7))
    × (atoi (codes "9223372036854775808") ≡ none)
    × (atoi (codes "1x") ≡ none)
    × (itoa 8016 ≡ codes "8016")
unfolding atoi itoa
atoi_examples = (refl, refl, refl, refl, refl)

scan-append :
    (n m d : ℕ) (s : Bytes)
    → scan n s ≡ some m
    → d < 10
    → scan n (s ++ (b'0' + d) ∷ []) ≡ some (m * 10 + d)
unfolding scan
scan-append n m d [] h lt = ground arith
scan-append n m d (c ∷ s) h lt = ground (arith, scan-append (n * 10 + (c - b'0')) m d s)

scan-digits : (fuel n : ℕ) → n < fuel → scan 0 (digits fuel n) ≡ some n
unfolding digits scan
scan-digits zero n h = absurd (omega arith)
scan-digits (suc fuel) n h =
    ground
      (arith, scan-digits fuel (n / 10), scan-append 0 (n / 10) (n % 10) (digits fuel (n / 10)))

-- The bytes of a printed number are digits, and there is at least one.
abbrev IsDigit : ℕ → Type 0
IsDigit c = (b'0' ≤ c) × (c ≤ b'9')

digits-IsDigit : (fuel n : ℕ) → All IsDigit (digits fuel n)
unfolding digits
digits-IsDigit zero n = tt
digits-IsDigit (suc fuel) n = ground (
  arith,
  digits-IsDigit fuel (n / 10),
  All-append IsDigit (digits fuel (n / 10)) ((b'0' + n % 10) ∷ []),
)

All-Lacks : (c : ℕ) (s : Bytes) → ¬ IsDigit c → All IsDigit s → Lacks c s
All-Lacks c [] h digs = tt
All-Lacks c (d ∷ s) h digs = ((λ e. h (subst IsDigit e digs.0)), All-Lacks c s h digs.1)

pub itoa-Lacks_dash : (n : ℕ) → Lacks b'-' (itoa n)
unfolding itoa
itoa-Lacks_dash n = All-Lacks b'-' _ (omega arith) (digits-IsDigit (suc n) n)

itoa-IsDigit : (n : ℕ) → All IsDigit (itoa n)
unfolding itoa
itoa-IsDigit n = digits-IsDigit (suc n) n

scan-itoa : (n : ℕ) → scan 0 (itoa n) ≡ some n
unfolding itoa
scan-itoa n = scan-digits (suc n) n (omega arith)

itoa-ne-nil : (n : ℕ) → itoa n ≢ []
unfolding itoa digits
itoa-ne-nil n = ground (arith, concat-ne-nil (b'0' + n % 10) (digits n (n / 10)))

atoi_digits :
    (s : Bytes) (n : ℕ)
    → s ≢ []
    → All IsDigit s
    → scan 0 s ≡ some n
    → n ≤ max_int
    → atoi s ≡ some (pos n)
unfolding atoi
atoi_digits [] n ne digs e h = absurd (ne refl)
atoi_digits (c ∷ s) n ne digs e h = ground arith

-- Reading what was printed gives the number back.
pub atoi-itoa : (n : ℕ) → n ≤ max_int → atoi (itoa n) ≡ some (pos n)
atoi-itoa n h = atoi_digits (itoa n) n (itoa-ne-nil n) (itoa-IsDigit n) (scan-itoa n) h

-- Without a sign in front a number that is read is not negative.
pub atoi_nonneg : (s : Bytes) (z : ℤ) → Lacks b'-' s → atoi s ≡ some z → (n : ℕ) × (z ≡ pos n)
unfolding atoi
atoi_nonneg [] z h e = cc
atoi_nonneg (c ∷ s) z h e = ground arith
