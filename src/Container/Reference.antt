-- ===== src/Container/Reference.antt =====
-- `ParseFQIN` of pkg/container/docker_container_manager.go. The parser of the package `reference`
-- is an argument: from a text it makes a normalized name and, if the text has one, a tag.
pub mod Domains
use car_integrated_service_m.Prelude.{
  ℕ, suc, ◌+◌, Bytes, codes, List, [], ◌∷◌, ◌++◌, Option, none, some, index_of, slice_to, drop,
  take, length, text_eq, Bool, true, false, not, ◌==◌, if◌then◌else◌, Outcome, ok, err, panic,
}

pub data ReferenceError : Type 0 where
  invalid_reference missing_slash : ReferenceError

abbrev pub ParseNormalized : Type 0
ParseNormalized = Bytes → Option (Bytes × Option Bytes)

-- `if tagged, isTagged := ref.(reference.Tagged); isTagged { … }`
abbrev pub with_tag : Bytes → Option Bytes → Bytes
with_tag name none = name
with_tag name (some tag) = name ++ (codes ":" ++ tag)

-- The name, with the default domain in place of one that `name` does not begin with. The slices
-- `[:idx+1]` are taken only if the lengths differ, and the one of `name` can be out of range.
unfoldable pub rename : Bytes → Bytes → Bytes → ℕ → Outcome ReferenceError Bytes
rename normalized name default_domain idx =
    if length normalized == length name
    then ok normalized
    else elim (slice_to {E = ReferenceError} (idx + 1) normalized) [
      | err e ↦ err e
      | panic ↦ panic
      | ok domain ↦ elim (slice_to {E = ReferenceError} (idx + 1) name) [
        | err e ↦ err e
        | panic ↦ panic
        | ok start ↦
            if text_eq domain start
            then ok normalized
            else ok (default_domain ++ drop idx normalized)
      ]
    ]

unfoldable pub parse_fqin : ParseNormalized → Bytes → Bytes → Outcome ReferenceError Bytes
unfolding rename
parse_fqin parse_normalized_named name default_domain = elim (parse_normalized_named name) [
  | none ↦ err invalid_reference
  | some (normalized, tag) ↦ elim (index_of b'/' normalized) [
    | none ↦ err missing_slash
    | some idx ↦ elim (rename normalized name default_domain idx) [
      | err e ↦ err e
      | panic ↦ panic
      | ok renamed ↦ ok (with_tag renamed tag)
    ]
  ]
]
