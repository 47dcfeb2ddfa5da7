-- ===== src/Container/Docker/Bundles.antt =====
-- What is read from a container: its bundle descriptor and its place in the list.
use car_integrated_service_m.Prelude.{
  Bytes, text_eq, Bool, true, false, ◌&&◌, List, [], ◌∷◌, map, head_or, All, none, some, ok, err,
  ◌≡◌, ◌≢◌, refl, arith,
}
use car_integrated_service_m.Container.{Container}
use car_integrated_service_m.Container.Ports.{format_ports}
use car_integrated_service_m.Container.Docker.{
  Archive, next, TarEntry, Summary, content_error, Unmarshal, read_archive, containers_of,
  bundle_config_file_name,
}

-- Whether an entry is the regular file of the descriptor.
abbrev pub is_descriptor : TarEntry → Bool
is_descriptor entry = entry.is_regular && text_eq entry.name bundle_config_file_name

abbrev pub behind : List TarEntry → Archive → Archive
behind [] archive = archive
behind (entry ∷ entries) archive = next entry (behind entries archive)

-- The descriptor is the first regular file of its name, whatever stands before it that is none, and
-- whatever stands or fails behind it: its content is decoded, or an error if it cannot be.
pub read_archive_lem :
    (unmarshal : Unmarshal) (entries : List TarEntry) (entry : TarEntry) (rest : Archive)
    → All (λ e. is_descriptor e ≡ false) entries
    → is_descriptor entry ≡ true
    → read_archive unmarshal (behind entries (next entry rest)) ≡ (elim entry.content [
      | none ↦ err content_error
      | some b ↦ elim (unmarshal b) [ none ↦ err content_error | some c ↦ ok c ]
    ])
unfolding read_archive
read_archive_lem unmarshal [] entry rest h t = ground (arith, t)
read_archive_lem unmarshal (e ∷ entries) entry rest h t =
    ground (arith, h.0, read_archive_lem unmarshal entries entry rest h.1 t)

abbrev pub container_of : Summary → Container
container_of c = record {
  id = c.id;
  first_name = head_or [] c.names;
  image = c.image;
  ports = format_ports c.ports;
  status = c.status;
}

-- Containers that all have a name are listed one by one, each under its first name.
pub containers_of-named :
    (cs : List Summary) → All (λ c. c.names ≢ []) cs → containers_of cs ≡ ok (map container_of cs)
unfolding containers_of
containers_of-named [] h = refl
containers_of-named (c ∷ cs) h = by_names c.names refl (containers_of-named cs h.1)
  where
    by_names :
        (names : List Bytes)
        → c.names ≡ names
        → containers_of cs ≡ ok (map container_of cs)
        → containers_of (c ∷ cs) ≡ ok (map container_of (c ∷ cs))
    by_names [] e ih = absurd (h.0 e)
    by_names (name ∷ names) e ih = rw (containers_of, e, ih) refl
