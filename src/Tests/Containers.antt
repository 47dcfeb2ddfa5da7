-- ===== src/Tests/Containers.antt =====
-- Image names and references at concrete inputs.
use car_integrated_service_m.Prelude.{
  Bytes, codes, ◌≡◌, ◌⊎◌, refl, [], ◌++◌, none, some, arith, ok, panic, Lacks, text_eq, index_of,
  slice_to, last_index, if◌then◌else◌, ltb,
}
use car_integrated_service_m.Container.Image.{Image, parse_image_name, image_text}
use car_integrated_service_m.Container.Image.RoundTrip.{
  parse_image_name-image_text, image_text-parse_image_name,
}
use car_integrated_service_m.Container.Reference.{ParseNormalized, parse_fqin, with_tag}
use car_integrated_service_m.Container.Reference.Domains.{
  parse_fqin_qualified, parse_fqin_unqualified,
}

abbrev envoy : Image
envoy = record { name = codes "envoyproxy/envoy"; version = codes "distroless-v1.27-latest" }

-- The cases of image_test.go.
parse_image_name_test :
    (parse_image_name (codes "envoyproxy/envoy:distroless-v1.27-latest") ≡ envoy)
    × (parse_image_name (codes "envoyproxy/envoy:") ≡ record envoy { version = [] })
    × (parse_image_name (codes "envoyproxy/envoy") ≡ record envoy { version = codes "latest" })
unfolding parse_image_name last_index
parse_image_name_test = (refl, refl, refl)

parse_image_name-image_text_example : parse_image_name (image_text envoy) ≡ envoy
parse_image_name-image_text_example = parse_image_name-image_text envoy (omega arith)

abbrev registry_port : Bytes
registry_port = codes "hpc:5000/app"

image_text-parse_image_name_test :
    Lacks b':' (parse_image_name registry_port).version
    × ((image_text (parse_image_name registry_port) ≡ registry_port)
        ⊎ (Lacks b':' registry_port
            × (image_text (parse_image_name registry_port) ≡ registry_port ++ codes ":latest")))
image_text-parse_image_name_test = image_text-parse_image_name registry_port

-- The port number of a registry is read as a version.
parse_registry_port :
    parse_image_name registry_port ≡ record { name = codes "hpc"; version = codes "5000/app" }
unfolding parse_image_name last_index
parse_registry_port = refl

-- The results of the parser for the texts of the tests here.
abbrev parser : ParseNormalized
parser name =
    if text_eq name (codes "gcr.io/envoy:v1")
    then some (codes "gcr.io/envoy", some (codes "v1"))
    else if text_eq name (codes "envoyproxy/envoy")
    then some (codes "docker.io/envoyproxy/envoy", none)
    else if text_eq name (codes "nginx")
    then some (codes "docker.io/library/nginx", none)
    else none

parse_fqin_test :
    (parse_fqin parser (codes "envoyproxy/envoy") (codes "customcr.io")
      ≡ ok (codes "customcr.io/envoyproxy/envoy"))
    × (parse_fqin parser (codes "gcr.io/envoy:v1") (codes "customcr.io")
        ≡ ok (codes "gcr.io/envoy:v1"))
    × (parse_fqin parser (codes "nginx") (codes "customcr.io") ≡ panic)
unfolding parse_fqin text_eq index_of slice_to
parse_fqin_test = (refl, refl, refl)

parse_fqin_qualified_test :
    parse_fqin parser (codes "gcr.io/envoy:v1") (codes "customcr.io")
    ≡ ok (with_tag (codes "gcr.io/envoy") (some (codes "v1")))
unfolding text_eq
parse_fqin_qualified_test =
    parse_fqin_qualified parser (codes "customcr.io") (codes "gcr.io") (codes "envoy")
      (some (codes "v1")) (omega arith) (codes "envoy:v1") refl

parse_fqin_unqualified_test :
    parse_fqin parser (codes "nginx") (codes "customcr.io")
    ≡ (if ltb 9 5 then ok (codes "customcr.io/library/nginx") else panic)
unfolding text_eq
parse_fqin_unqualified_test =
    parse_fqin_unqualified parser (codes "customcr.io") (codes "docker.io") (codes "library/nginx")
      none (omega arith) (codes "nginx") refl (omega arith) (λ e. cc)
