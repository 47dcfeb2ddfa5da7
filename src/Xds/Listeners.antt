-- ===== src/Xds/Listeners.antt =====
-- `makeHTTPConnectionManager` and `makeHTTPListener` of
-- cmd/carisma-control-plane/app/xds/resource.go, and config_source.go. Packing a message with
-- `anypb.New` is an argument. Enum fields that are one constant throughout are left out.
use car_integrated_service_m.Prelude.{
  to_uint32, ℕ, Bytes, codes, Option, none, some, List, [], ◌∷◌, Outcome, ok, err, panic,
}
use car_integrated_service_m.Config.Settings.{Config}
use car_integrated_service_m.Config.Bootstrap.{xds_cluster_name}
use car_integrated_service_m.Xds.Clusters.{XdsError, marshal_failed}
use car_integrated_service_m.Xds.Routes.{grpc_route_name, local_grpc_route_name}

abbrev pub ingress_stat_prefix : Bytes
ingress_stat_prefix = codes "ingress_http"

abbrev pub egress_stat_prefix : Bytes
egress_stat_prefix = codes "egress_http"

abbrev pub ingress_listener_name : Bytes
ingress_listener_name = codes "ingress_listener"

abbrev pub egress_listener_name : Bytes
egress_listener_name = codes "egress_listener"

-- Where a proxy fetches route configurations: the cluster that it asks over gRPC.
pub record ConfigSource : Type 0 where
  pub grpc_cluster : Bytes

unfoldable pub get_config_source : ConfigSource
get_config_source = record { grpc_cluster = xds_cluster_name }

pub record HttpConnectionManager : Type 0 where
  pub stat_prefix : Bytes
  pub config_source : ConfigSource
  pub route_config_name : Bytes

pub data TrafficDirection : Type 0 where
  inbound outbound : TrafficDirection

-- A listener with its one filter, whose configuration is packed.
pub record Listener (Any : Type 0) : Type 0 where
  pub name : Bytes
  pub address : Bytes
  pub port_value : ℕ
  pub traffic_direction : TrafficDirection
  pub filter_config : Any

abbrev pub ingress_manager : HttpConnectionManager
ingress_manager = record {
  stat_prefix = ingress_stat_prefix;
  config_source = get_config_source;
  route_config_name = local_grpc_route_name;
}

abbrev pub egress_manager : HttpConnectionManager
egress_manager = record {
  stat_prefix = egress_stat_prefix;
  config_source = get_config_source;
  route_config_name = grpc_route_name;
}

module _ {Any : Type 0} (pack : HttpConnectionManager → Option Any) where
  -- The packed managers for the ingress and for the egress.
  unfoldable pub make_http_connection_manager : Outcome XdsError (Any × Any)
  make_http_connection_manager = elim (pack ingress_manager) [
    | none ↦ err marshal_failed
    | some i ↦ elim (pack egress_manager) [ none ↦ err marshal_failed | some e ↦ ok (i, e) ]
  ]

  unfoldable pub make_http_listener : Config → Outcome XdsError (List (Listener Any))
  unfolding make_http_connection_manager
  make_http_listener cfg = elim make_http_connection_manager [
    | err e ↦ err e
    | panic ↦ panic
    | ok (ingress, egress) ↦ ok (
        record {
          name = ingress_listener_name;
          address = codes "0.0.0.0";
          port_value = to_uint32 cfg.ingress_port;
          traffic_direction = inbound;
          filter_config = ingress;
        }
        ∷ record {
          name = egress_listener_name;
          address = codes "0.0.0.0";
          port_value = to_uint32 cfg.egress_port;
          traffic_direction = outbound;
          filter_config = egress;
        }
        ∷ [])
  ]
