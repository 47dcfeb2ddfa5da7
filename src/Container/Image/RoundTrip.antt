-- ===== src/Container/Image/RoundTrip.antt =====
-- Image names, printed and parsed.
use car_integrated_service_m.Prelude.{
  [], ◌++◌, ◌≡◌, refl, ◌∷◌, Lacks, Bytes, codes, arith, last_index, last_index-last,
  last_index-split, last_index-Lacks, take-length, Option, none, some, inl, inr, sym, drop, ◌⊎◌, ℕ,
  suc, length,
}
use car_integrated_service_m.Container.Image.{Image, parse_image_name, image_text}

drop-suc-length : (s t : Bytes) (c : ℕ) → drop (suc (length s)) (s ++ c ∷ t) ≡ t
drop-suc-length [] t c = refl
drop-suc-length (d ∷ s) t c = drop-suc-length s t c

-- An image whose version has no colon is read back from its text. So what is read as the version of
-- any text is what follows its last colon, also where that colon stands before a port number.
pub parse_image_name-image_text :
    (i : Image) → Lacks b':' i.version → parse_image_name (image_text i) ≡ i
unfolding parse_image_name
parse_image_name-image_text i h = rw (
  last_index-last b':' i.name i.version h,
  parse_image_name,
  take-length i.name (b':' ∷ i.version),
  drop-suc-length i.name i.version b':',
)

-- A text is the text of the image that is read from it, but for `:latest` behind a text without a
-- colon. The version that is read never has a colon.
pub image_text-parse_image_name :
    (s : Bytes)
    → Lacks b':' (parse_image_name s).version
      × ((image_text (parse_image_name s) ≡ s)
          ⊎ (Lacks b':' s × (image_text (parse_image_name s) ≡ s ++ codes ":latest")))
unfolding parse_image_name
image_text-parse_image_name s = by_index (last_index b':' s) refl
  where
    by_index :
        (o : Option ℕ)
        → last_index b':' s ≡ o
        → Lacks b':' (parse_image_name s).version
          × ((image_text (parse_image_name s) ≡ s)
              ⊎ (Lacks b':' s × (image_text (parse_image_name s) ≡ s ++ codes ":latest")))
    by_index none e = rw (e, parse_image_name) (omega arith, inr (last_index-Lacks b':' s e, refl))
    by_index (some i) e =
        let (whole, tag) = last_index-split b':' s i e in
        rw (e, parse_image_name) (tag, inl (sym whole))
