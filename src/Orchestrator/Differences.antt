-- ===== src/Orchestrator/Differences.antt =====
-- `diff` against set difference.
use car_integrated_service_m.Prelude.{
  Bytes, text_eq, text_eq_iff, lookup, insert, lookup-insert, Assoc, Bool, true, false, not, ◌&&◌,
  List, [], ◌∷◌, ◌++◌, append_assoc, append-nil, Option, none, some, if◌then◌else◌, select, any,
  All, ◌≡◌, ◌≢◌, ◌∙◌, refl, subst, ap, arith,
}
use car_integrated_service_m.Container.Image.{Image}
use car_integrated_service_m.Orchestrator.{remember, is_missing, collect_missing, diff}

abbrev pub image_eq : Image → Image → Bool
image_eq i j = text_eq i.name j.name && text_eq i.version j.version

-- The version of the last image of a name.
abbrev pub version_in : List Image → Bytes → Option Bytes
version_in [] name = none
version_in (i ∷ is) name = elim (version_in is name) [
  | some v ↦ some v
  | none ↦ if text_eq i.name name then some i.version else none
]

-- Whether the last image of the name has the same version.
abbrev pub is_current : List Image → Image → Bool
is_current a i = elim (version_in a i.name) [ none ↦ false | some v ↦ text_eq v i.version ]

lookup-remember :
    (memory : Assoc Bytes) (a : List Image) (name : Bytes)
    → lookup name (remember memory a)
      ≡ elim (version_in a name) [ none ↦ lookup name memory | some v ↦ some v ]
unfolding remember
lookup-remember memory [] name = refl
lookup-remember memory (i ∷ is) name = ground (
  arith,
  lookup-remember (insert i.name i.version memory) is name,
  lookup-insert i.name name i.version memory,
)

collect_missing-select :
    (memory : Assoc Bytes) (b missing : List Image)
    → collect_missing memory b missing ≡ missing ++ select (is_missing memory) b
unfolding collect_missing
collect_missing-select memory [] missing = ground (arith, append-nil missing)
collect_missing-select memory (i ∷ is) missing = ground (
  arith,
  collect_missing-select memory is (missing ++ i ∷ []),
  collect_missing-select memory is missing,
  append_assoc missing (i ∷ []) (select (is_missing memory) is),
)

pub select_cong {ℓ} :
    {A : Type ℓ} (p q : A → Bool) (xs : List A)
    → All (λ x. p x ≡ q x) xs
    → select p xs ≡ select q xs
select_cong p q [] h = refl
select_cong p q (x ∷ xs) h = ground (arith, select_cong p q xs h.1)

pub All-every {ℓ κ} : {A : Type ℓ} {P : A → Type κ} (h : (x : A) → P x) (xs : List A) → All P xs
All-every h [] = tt
All-every h (x ∷ xs) = (h x, All-every h xs)

is_missing-remember :
    (a : List Image) (i : Image) → is_missing (remember [] a) i ≡ not (is_current a i)
is_missing-remember a i = unfold lookup in ground (arith, lookup-remember [] a i.name)

-- The images of `b` are kept, in order, for whose name `a` has no image, or has a last one with
-- another version.
pub diff_lem : (a b : List Image) → diff a b ≡ select (λ i. not (is_current a i)) b
unfolding diff
diff_lem a b =
    collect_missing-select (remember [] a) b []
    ∙ select_cong _ _ b (All-every (is_missing-remember a) b)

-- No name stands twice.
abbrev pub IsUniquelyNamed : List Image → Type 0
IsUniquelyNamed [] = Unit
IsUniquelyNamed (i ∷ is) = All (λ j. i.name ≢ j.name) is × IsUniquelyNamed is

version_in-none :
    (a : List Image) (name : Bytes) → All (λ j. name ≢ j.name) a → version_in a name ≡ none
version_in-none [] name h = refl
version_in-none (i ∷ is) name h =
    ground (arith, version_in-none is name h.1, text_eq_iff i.name name)

any-image_eq_none :
    (a : List Image) (i : Image) → All (λ j. i.name ≢ j.name) a → any (image_eq i) a ≡ false
any-image_eq_none [] i h = refl
any-image_eq_none (j ∷ a) i h = ground (arith, any-image_eq_none a i h.1, text_eq_iff i.name j.name)

pub is_current-any :
    (a : List Image) (i : Image) → IsUniquelyNamed a → is_current a i ≡ any (image_eq i) a
is_current-any [] i u = refl
is_current-any (j ∷ a) i u = by_name (text_eq j.name i.name) refl (is_current-any a i u.1)
  where
    by_name :
        (t : Bool)
        → text_eq j.name i.name ≡ t
        → is_current a i ≡ any (image_eq i) a
        → is_current (j ∷ a) i ≡ any (image_eq i) (j ∷ a)
    by_name true t ih =
        let e : j.name ≡ i.name = (text_eq_iff j.name i.name).0 t in
        let lacks = subst (λ n. All (λ k. n ≢ k.name) a) e u.0 in
        ground (
          arith,
          version_in-none a i.name lacks,
          any-image_eq_none a i lacks,
          text_eq_iff i.version j.version,
          text_eq_iff j.version i.version,
          text_eq_iff i.name j.name,
        )
    by_name false t ih = ground (arith, text_eq_iff i.name j.name, text_eq_iff j.name i.name)

-- If no name stands twice in `a`, the difference is that of sets: the images of `b` are kept, in
-- order, that are not in `a` with the same name and version.
pub diff_unique :
    (a b : List Image) → IsUniquelyNamed a → diff a b ≡ select (λ i. not (any (image_eq i) a)) b
diff_unique a b u =
    diff_lem a b ∙ select_cong _ _ b (All-every (λ i. ap not (is_current-any a i u)) b)
