-- ===== src/Orchestrator/Proxy/Ports.antt =====
-- The ports and the image of the proxy.
use mathlib.Core.List.{reverse, reverse-append}
use car_integrated_service_m.Prelude.{
  last_index, itoa_int, lookup, lookup-insert, text_eq, text_eq_iff, index_of, slice_to, has_prefix,
  has_suffix, Bytes, codes, true, ◌||◌, if◌then◌else◌, List, [], ◌∷◌, ◌++◌, none, some, ok, ◌≡◌,
  refl, ap, arith,
}
use car_integrated_service_m.Container.Manager.{PortBinding}
use car_integrated_service_m.Container.Image.{Image, image_text, parse_image_name}
use car_integrated_service_m.Container.Image.RoundTrip.{parse_image_name-image_text}
use car_integrated_service_m.Container.Reference.{ParseNormalized, parse_fqin, rename}
use car_integrated_service_m.Config.Settings.{Config}
use car_integrated_service_m.Orchestrator.{envoy_container_image_name, is_middleware}
use car_integrated_service_m.Orchestrator.Proxy.{proxy_ports, bind_port}

abbrev bound : Bytes → List PortBinding
bound port = record { host_ip = []; host_port = port } ∷ []

-- The proxy gets a binding of each of its three ports to the same port of the host, and no other,
-- also where two of the ports are the same.
pub proxy_ports_lem :
    (cfg : Config) (k : Bytes)
    → lookup k (proxy_ports cfg) ≡ (
        if text_eq (itoa_int cfg.admin_port) k
          || (text_eq (itoa_int cfg.egress_port) k || text_eq (itoa_int cfg.ingress_port) k)
        then some (record { host_ip = []; host_port = k } ∷ [])
        else none)
unfolding lookup proxy_ports
proxy_ports_lem cfg k =
    let a = itoa_int cfg.admin_port in
    let e = itoa_int cfg.egress_port in
    let i = itoa_int cfg.ingress_port in
    ground (
      arith,
      lookup-insert a k (bound a) (bind_port cfg.egress_port (bind_port cfg.ingress_port [])),
      lookup-insert e k (bound e) (bind_port cfg.ingress_port []),
      lookup-insert i k (bound i) [],
      text_eq_iff a k,
      text_eq_iff e k,
      text_eq_iff i k,
    )

abbrev pub proxy_name : Bytes → Image
proxy_name domain = record {
  name = domain ++ codes "/envoyproxy/envoy";
  version = codes "distroless-v1.27-latest";
}

proxy_suffix : (domain : Bytes) → is_middleware (proxy_name domain) ≡ true
unfolding is_middleware has_suffix has_prefix parse_image_name last_index
proxy_suffix domain =
    ap (λ s. has_prefix s (reverse (codes "envoyproxy/envoy")))
      (reverse-append domain (codes "/envoyproxy/envoy"))

-- Whatever the default domain, if the parser reads the name of the proxy's image as it is written,
-- the qualified name is that of the image under the default domain, is read back by the image
-- parser, and is taken for the middleware, which `process` does not remove.
pub proxy_is_middleware :
    (parse : ParseNormalized) (domain : Bytes)
    → parse envoy_container_image_name
      ≡ some (codes "docker.io/envoyproxy/envoy", some (codes "distroless-v1.27-latest"))
    → (parse_fqin parse envoy_container_image_name domain ≡ ok (image_text (proxy_name domain)))
      × (parse_image_name (image_text (proxy_name domain)) ≡ proxy_name domain)
      × (is_middleware (proxy_name domain) ≡ true)
unfolding parse_fqin rename text_eq index_of slice_to
proxy_is_middleware parse domain p = (
  rw (parse_fqin, p) refl,
  parse_image_name-image_text (proxy_name domain) (omega arith),
  proxy_suffix domain,
)
