-- ===== src/Container/Reference/Domains.antt =====
-- The domain of a fully qualified image name.
use car_integrated_service_m.Prelude.{
  ltb, ℕ, ◌+◌, Bytes, [], ◌∷◌, ◌++◌, Option, some, index_of-first, slice_to, take, length,
  length-append, text_eq_iff, text_eq_refl, if◌then◌else◌, ok, err, panic, Lacks, ◌≡◌, ◌≢◌, arith,
  drop-length,
}
use car_integrated_service_m.Container.Reference.{ParseNormalized, with_tag, rename, parse_fqin}

take-suc-length : (s t : Bytes) (c : ℕ) → take (length s + 1) (s ++ c ∷ t) ≡ s ++ c ∷ []
take-suc-length [] t c = ground arith
take-suc-length (d ∷ s) t c = ground (arith, take-suc-length s t c)

rename_qualified :
    (domain path rest default_domain : Bytes)
    → rename (domain ++ b'/' ∷ path) (domain ++ b'/' ∷ rest) default_domain (length domain)
      ≡ ok (domain ++ b'/' ∷ path)
unfolding rename slice_to
rename_qualified domain path rest default_domain = ground (
  arith,
  take-suc-length domain path b'/',
  take-suc-length domain rest b'/',
  text_eq_refl (domain ++ b'/' ∷ []),
  length-append domain (b'/' ∷ path),
  length-append domain (b'/' ∷ rest),
)

rename_unqualified :
    (domain path name default_domain : Bytes)
    → length name ≢ length (domain ++ b'/' ∷ path)
    → domain ++ b'/' ∷ [] ≢ take (length domain + 1) name
    → rename (domain ++ b'/' ∷ path) name default_domain (length domain)
      ≡ (if ltb (length domain) (length name) then ok (default_domain ++ b'/' ∷ path) else panic)
unfolding rename slice_to
rename_unqualified domain path name default_domain ne differs = ground (
  arith,
  take-suc-length domain path b'/',
  drop-length domain (b'/' ∷ path),
  text_eq_iff (domain ++ b'/' ∷ []) (take (length domain + 1) name),
  length-append domain (b'/' ∷ path),
)

module _ (parse : ParseNormalized) (default_domain domain path : Bytes) (tag : Option Bytes)
    (no_slash : Lacks b'/' domain) where
  parsed_fqin :
      (name : Bytes)
      → parse name ≡ some (domain ++ b'/' ∷ path, tag)
      → parse_fqin parse name default_domain
        ≡ elim (rename (domain ++ b'/' ∷ path) name default_domain (length domain)) [
          | err e ↦ err e
          | panic ↦ panic
          | ok renamed ↦ ok (with_tag renamed tag)
        ]
  unfolding parse_fqin
  parsed_fqin name e = ground (arith, index_of-first b'/' domain path no_slash)

  -- A name that begins with the domain that the parser finds in it keeps that domain, with the path
  -- and the tag that the parser finds.
  pub parse_fqin_qualified :
      (rest : Bytes)
      → parse (domain ++ b'/' ∷ rest) ≡ some (domain ++ b'/' ∷ path, tag)
      → parse_fqin parse (domain ++ b'/' ∷ rest) default_domain
        ≡ ok (with_tag (domain ++ b'/' ∷ path) tag)
  parse_fqin_qualified rest e =
      ground (arith, parsed_fqin _ e, rename_qualified domain path rest default_domain)

  -- A name that does not begin with the domain that the parser finds, and is not as long as the
  -- normalized name, gets the default domain before the path and the tag if it is longer than that
  -- domain; if it is not, the call panics.
  pub parse_fqin_unqualified :
      (name : Bytes)
      → parse name ≡ some (domain ++ b'/' ∷ path, tag)
      → length name ≢ length (domain ++ b'/' ∷ path)
      → domain ++ b'/' ∷ [] ≢ take (length domain + 1) name
      → parse_fqin parse name default_domain ≡ (
          if ltb (length domain) (length name)
          then ok (with_tag (default_domain ++ b'/' ∷ path) tag)
          else panic)
  parse_fqin_unqualified name e ne differs =
      ground
        (arith, parsed_fqin name e, rename_unqualified domain path name default_domain ne differs)
