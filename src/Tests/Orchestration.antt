-- ===== src/Tests/Orchestration.antt =====
-- The orchestrator on an engine that keeps the texts of the images it runs.
use car_integrated_service_m.Prelude.{
  pos, Bytes, codes, insert, text_eq, text_eq_iff, lookup, last_index, index_of, slice_to, true,
  false, not, List, [], ◌∷◌, none, some, if◌then◌else◌, select, any, ok, has_prefix, has_suffix,
  length, arith, ◌≡◌, ◌≢◌, refl, ap, arith,
}
use car_integrated_service_m.Container.Image.{Image, parse_image_name, extract_image_list}
use car_integrated_service_m.Container.Manager.{Manager}
use car_integrated_service_m.Container.Reference.{ParseNormalized, parse_fqin, invalid_reference}
use car_integrated_service_m.Config.Settings.{Config, default}
use car_integrated_service_m.Config.Deployment.{NodeConfig}
use car_integrated_service_m.Orchestrator.{
  process_node, is_middleware, diff, qualify, parse_images, process, Processed, bad_reference,
  is_managed,
}
use car_integrated_service_m.Orchestrator.Differences.{image_eq, diff_unique, is_current, diff_lem}
use car_integrated_service_m.Tests.Images.{containers_of, without}
use car_integrated_service_m.Orchestrator.Plan.{
  Request, remove, install, perform_all, process_lem, process_settled, process_rejects,
}

abbrev pub engine : Manager
engine = record {
  World = List Bytes;
  containers = λ w. (w, some (containers_of w));
  start_container = λ w id. (w, some tt);
  stop_container = λ w id. (w, some tt);
  pull_image_and_create_container =
      λ w name cmd ports verify. (name ∷ w, some (codes "com.example", pos 8080));
  remove_image_and_container = λ w name verify.
      if verify
      then (if text_eq name (codes "docker.io/mbition/old:v1")
          then (w, none)
          else (without (parse_image_name name) w, some (codes "com.example", pos 8080)))
      else (without (parse_image_name name) w, none);
  close = λ w. (w, some tt);
}

abbrev pub parser : ParseNormalized
parser name =
    if text_eq name (codes "mbition/hello-world")
    then some (codes "docker.io/mbition/hello-world", none)
    else none

abbrev pub settings : Config
settings = default (codes "hpc-0")

abbrev pub running : List Bytes
running = codes "docker.io/envoyproxy/envoy:v1" ∷ codes "docker.io/mbition/old:v1" ∷ []

abbrev pub node : NodeConfig
node = record { state = codes "running"; images = codes "mbition/hello-world:v2" ∷ [] }

abbrev pub wanted : List Image
wanted = record { name = codes "docker.io/mbition/hello-world"; version = codes "v2" } ∷ []

abbrev unreadable : NodeConfig
unreadable = record { state = codes "running"; images = codes "Mbition:v2" ∷ [] }

abbrev changed : Processed engine
changed = process engine parser settings running ((codes "hpc-0", node) ∷ [])

-- The middleware stays.
abbrev requests : List Request
requests =
    remove (record { name = codes "docker.io/mbition/old"; version = codes "v1" })
    ∷ install (record { name = codes "docker.io/mbition/hello-world"; version = codes "v2" })
    ∷ []

names_differ : codes "docker.io/envoyproxy/envoy" ≢ codes "docker.io/mbition/old"
names_differ e = let lengths = ap length e in omega arith

process_lem_example :
    (changed.result ≡ ok tt)
    × ((changed.world, changed.calls) ≡ perform_all engine running requests)
unfolding text_eq parse_images parse_image_name last_index qualify parse_fqin index_of slice_to
    lookup default extract_image_list is_managed is_middleware has_prefix has_suffix
process_lem_example =
    process_lem engine parser settings running running ((codes "hpc-0", node) ∷ []) node
      (containers_of running) wanted refl refl refl ((names_differ, tt), (tt, tt)) (tt, tt)

-- Only the middleware is there beside the configured image.
abbrev settled : List Bytes
settled = codes "docker.io/envoyproxy/envoy:v1" ∷ codes "docker.io/mbition/hello-world:v2" ∷ []

settled_names_differ : codes "docker.io/envoyproxy/envoy" ≢ codes "docker.io/mbition/hello-world"
settled_names_differ e = let lengths = ap length e in omega arith

process_settled_example :
    let p = process engine parser settings settled ((codes "hpc-0", node) ∷ []) in
    (p.result ≡ ok tt) × (p.world ≡ settled) × (p.calls ≡ [])
unfolding text_eq parse_images parse_image_name last_index qualify parse_fqin index_of slice_to
    lookup default extract_image_list is_managed is_middleware has_prefix has_suffix
process_settled_example =
    process_settled engine parser settings settled settled ((codes "hpc-0", node) ∷ []) node
      (containers_of settled) wanted refl refl refl ((settled_names_differ, tt), (tt, tt)) (tt, tt)
      (refl, (refl, tt)) (refl, tt)

abbrev rejected : Processed engine
rejected = process engine parser settings running ((codes "hpc-0", unreadable) ∷ [])

process_rejects_example : (rejected.world ≡ running) × (rejected.calls ≡ [])
unfolding text_eq parse_images parse_image_name last_index qualify parse_fqin process process_node
    lookup default
process_rejects_example =
    process_rejects engine parser settings running ((codes "hpc-0", unreadable) ∷ [])
      (bad_reference invalid_reference) refl

abbrev current : List Image
current = record { name = codes "app"; version = codes "v1" } ∷ []

abbrev newer : List Image
newer =
    record { name = codes "app"; version = codes "v2" }
    ∷ record { name = codes "web"; version = codes "v1" }
    ∷ []

diff_test : diff current newer ≡ newer
unfolding diff text_eq lookup insert
diff_test = refl

diff_unique_example : diff newer current ≡ select (λ i. not (any (image_eq i) newer)) current
unfolding text_eq
diff_unique_example = diff_unique newer current (
  ((λ e. let h : false ≡ true = (text_eq_iff (codes "app") (codes "web")).1 e in cc), tt),
  (tt, tt),
)

diff_lem_test : diff current newer ≡ select (λ i. not (is_current current i)) newer
diff_lem_test = diff_lem current newer
