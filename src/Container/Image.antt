-- ===== src/Container/Image.antt =====
-- pkg/container/image.go: images with a version, and their names.
pub mod RoundTrip
use car_integrated_service_m.Prelude.{
  suc, Bytes, codes, List, [], ◌∷◌, ◌++◌, map, Option, none, some, last_index, take, drop,
}
use car_integrated_service_m.Container.{Container}

pub record Image : Type 0 where
  pub name : Bytes
  pub version : Bytes

unfoldable pub parse_image_name : Bytes → Image
parse_image_name str = elim (last_index b':' str) [
  | some idx ↦ record { name = take idx str; version = drop (suc idx) str }
  | none ↦ record { name = str; version = codes "latest" }
]

-- The loop fills the slot of each container.
unfoldable pub extract_image_list : List Container → List Image
unfolding parse_image_name
extract_image_list [] = []
extract_image_list (c ∷ containers) = parse_image_name c.image ∷ extract_image_list containers

-- `fmt.Sprintf("%s:%s", i.Name, i.Version)`, as the orchestrator names an image.
abbrev pub image_text : Image → Bytes
image_text i = i.name ++ (codes ":" ++ i.version)
