-- ===== src/Tests/Images.antt =====
-- Container engines for tests: they keep the texts of the images they run.
use car_integrated_service_m.Prelude.{Bytes, codes, List, [], ◌∷◌, if◌then◌else◌}
use car_integrated_service_m.Container.{Container}
use car_integrated_service_m.Container.Image.{Image, parse_image_name}
use car_integrated_service_m.Orchestrator.Differences.{image_eq}

abbrev pub container_of : Bytes → Container
container_of text = record {
  id = codes "0";
  first_name = codes "/0";
  image = text;
  ports = [];
  status = codes "Up";
}

abbrev pub containers_of : List Bytes → List Container
containers_of [] = []
containers_of (t ∷ ts) = container_of t ∷ containers_of ts

abbrev pub without : Image → List Bytes → List Bytes
without i [] = []
without i (t ∷ ts) =
    let rest = without i ts in if image_eq (parse_image_name t) i then rest else t ∷ rest
