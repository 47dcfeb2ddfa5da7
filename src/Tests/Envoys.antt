-- ===== src/Tests/Envoys.antt =====
-- The proxy of a node at concrete inputs.
use car_integrated_service_m.Prelude.{
  codes, lookup, text_eq, itoa_int, itoa, none, some, if◌then◌else◌, ok, [], ◌∷◌, ◌≡◌, refl, true,
}
use car_integrated_service_m.Container.Image.{image_text, parse_image_name}
use car_integrated_service_m.Container.Reference.{ParseNormalized, parse_fqin}
use car_integrated_service_m.Config.Settings.{default}
use car_integrated_service_m.Orchestrator.{envoy_container_image_name, is_middleware}
use car_integrated_service_m.Orchestrator.Proxy.{proxy_ports}
use car_integrated_service_m.Orchestrator.Proxy.Ports.{
  proxy_ports_lem, proxy_name, proxy_is_middleware,
}

proxy_ports_lem_test :
    lookup (codes "9901") (proxy_ports (default (codes "hpc-0")))
    ≡ some (record { host_ip = []; host_port = codes "9901" } ∷ [])
unfolding default itoa_int itoa text_eq
proxy_ports_lem_test = proxy_ports_lem (default (codes "hpc-0")) (codes "9901")

abbrev pub parser : ParseNormalized
parser name =
    if text_eq name envoy_container_image_name
    then some (codes "docker.io/envoyproxy/envoy", some (codes "distroless-v1.27-latest"))
    else none

proxy_is_middleware_test :
    (parse_fqin parser envoy_container_image_name (codes "customcr.io")
      ≡ ok (image_text (proxy_name (codes "customcr.io"))))
    × (parse_image_name (image_text (proxy_name (codes "customcr.io")))
        ≡ proxy_name (codes "customcr.io"))
    × (is_middleware (proxy_name (codes "customcr.io")) ≡ true)
unfolding text_eq
proxy_is_middleware_test = proxy_is_middleware parser (codes "customcr.io") refl
