-- ===== src/Orchestrator/Proxy/Clusters.antt =====
-- The clusters that a proxy asks for its configuration.
use car_integrated_service_m.Prelude.{
  ◌<◌, ◌^◌, ℕ, pos, Bytes, text_eq, true, if◌then◌else◌, List, [], ◌∷◌, Option, none, some, ok, map,
  All, ◌≡◌, ◌≢◌, ◌↔◌, arith, to_uint32,
}
use car_integrated_service_m.Config.Settings.{Config, Decoder, ConfigFile, Flag, new}
use car_integrated_service_m.Config.Settings.Sources.{new_lem}
use car_integrated_service_m.Config.Bootstrap.{
  xds_cluster_name, Bootstrap, SocketAddress, StaticCluster, envoy_bootstrap_config_with_node_id,
}
use car_integrated_service_m.Xds.Listeners.{
  HttpConnectionManager, ingress_manager, egress_manager, get_config_source,
}

-- The endpoint of the static cluster with a name.
abbrev pub endpoint_of : List StaticCluster → Bytes → Option SocketAddress
endpoint_of [] name = none
endpoint_of (c ∷ cs) name = if text_eq c.name name then some c.endpoint else endpoint_of cs name

-- Every cluster that the bootstrap configuration, or a manager of a listener, names as the source of
-- configurations.
abbrev pub sources_of : Bootstrap → List Bytes
sources_of b =
    b.ads_cluster_name
    ∷ map (λ (m : HttpConnectionManager). m.config_source.grpc_cluster)
        (ingress_manager ∷ egress_manager ∷ [])

-- For settings that are made from their sources, with a gRPC port below 2^32, every source of
-- configurations is a static cluster of the proxy's bootstrap configuration, at that port of the
-- central node; in central mode this is the node itself. The proxy has an admin address exactly in
-- debug mode.
pub bootstrap_lem :
    (unmarshal : Decoder) (hostname : Bytes) (file : ConfigFile) (flags : List Flag) (c : Config)
    (node_id : Bytes) (port : ℕ)
    → new unmarshal hostname file flags ≡ ok c
    → c.grpc_port ≡ pos port
    → port < 2 ^ 32
    → let b = envoy_bootstrap_config_with_node_id c node_id in
      All
        (λ name.
          endpoint_of b.static_clusters name
          ≡ some (record {
            address = if c.enable_central_mode then c.node_hostname else c.central_node_hostname;
            port_value = port;
          }))
        (sources_of b)
      × ((b.admin ≢ none) ↔ (c.enable_debug_mode ≡ true))
unfolding envoy_bootstrap_config_with_node_id get_config_source text_eq to_uint32
bootstrap_lem unmarshal hostname file flags c node_id port made is_port small =
    let (base, _, sources) = new_lem unmarshal hostname file flags c made in
    let (_, mode, central) = sources in
    let address : c.central_node_hostname
        ≡ (if c.enable_central_mode then c.node_hostname else c.central_node_hostname) =
      ground arith in
    let number : to_uint32 c.grpc_port ≡ port = rw is_port (omega arith) in
    let at : endpoint_of (envoy_bootstrap_config_with_node_id c node_id).static_clusters
          xds_cluster_name
        ≡ some (record {
          address = if c.enable_central_mode then c.node_hostname else c.central_node_hostname;
          port_value = port;
        }) =
      ground arith in
    ((at, (at, (at, tt))), ground arith)
