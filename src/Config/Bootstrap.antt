-- ===== src/Config/Bootstrap.antt =====
-- `EnvoyBootstrapConfigWithNodeID` of pkg/config/config.go: what a proxy is started with. Enum fields
-- that are one constant, and the HTTP2 options, are left out.
use car_integrated_service_m.Prelude.{
  ℕ, Bytes, codes, to_uint32, if◌then◌else◌, List, [], ◌∷◌, Option, none, some,
}
use car_integrated_service_m.Config.Settings.{Config}

abbrev pub envoy_cluster_name : Bytes
envoy_cluster_name = codes "envoy-cluster"

abbrev pub xds_cluster_name : Bytes
xds_cluster_name = codes "xds-cluster"

pub record SocketAddress : Type 0 where
  pub address : Bytes
  pub port_value : ℕ

-- A static cluster with its one endpoint.
pub record StaticCluster : Type 0 where
  pub name : Bytes
  pub endpoint : SocketAddress

-- Listeners and clusters are both fetched over the aggregated service, from the cluster
-- `ads_cluster_name`.
pub record Bootstrap : Type 0 where
  pub node_id : Bytes
  pub node_cluster : Bytes
  pub ads_cluster_name : Bytes
  pub static_clusters : List StaticCluster
  pub admin : Option SocketAddress

unfoldable pub envoy_bootstrap_config_with_node_id : Config → Bytes → Bootstrap
envoy_bootstrap_config_with_node_id c node_id = record {
  node_id = node_id;
  node_cluster = envoy_cluster_name;
  ads_cluster_name = xds_cluster_name;
  static_clusters =
      record {
        name = xds_cluster_name;
        endpoint = record { address = c.central_node_hostname; port_value = to_uint32 c.grpc_port };
      }
      ∷ [];
  admin =
      if c.enable_debug_mode
      then some (record { address = codes "0.0.0.0"; port_value = to_uint32 c.admin_port })
      else none;
}
