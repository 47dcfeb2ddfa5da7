-- ===== src/Orchestrator/Proxy.antt =====
-- cmd/carisma-orchestrator/app/envoy.go: starting and stopping the proxy of a node. `protojson.Format`
-- is an argument.
pub mod Ports
pub mod Clusters
use car_integrated_service_m.Prelude.{
  ℤ, itoa_int, Bytes, codes, Bool, true, false, List, [], ◌∷◌, ◌++◌, Option, none, some, Assoc,
  insert, Outcome, ok, err, panic, ◌≡◌, ◌∙◌, refl, ap, arith,
}
use car_integrated_service_m.Container.Manager.{Manager, PortBinding, PortMap}
use car_integrated_service_m.Container.Reference.{ParseNormalized, ReferenceError, parse_fqin}
use car_integrated_service_m.Config.Settings.{Config}
use car_integrated_service_m.Config.Bootstrap.{Bootstrap, envoy_bootstrap_config_with_node_id}
use car_integrated_service_m.Orchestrator.{envoy_container_image_name}

pub data ProxyError : Type 0 where
  bad_image : ReferenceError → ProxyError
  manager_failed : ProxyError

-- `portMap[nat.Port(strconv.Itoa(port))] = …`
abbrev pub bind_port : ℤ → PortMap → PortMap
bind_port port port_map =
    insert (itoa_int port) (record { host_ip = []; host_port = itoa_int port } ∷ []) port_map

unfoldable pub proxy_ports : Config → PortMap
proxy_ports cfg =
    bind_port cfg.admin_port (bind_port cfg.egress_port (bind_port cfg.ingress_port []))

module _ (mgr : Manager) (parse : ParseNormalized) (cfg : Config) where
  unfoldable pub run_envoy :
      (Bootstrap → Bytes) → Bytes → mgr.World → mgr.World × Outcome ProxyError (Unit {0})
  unfolding proxy_ports envoy_bootstrap_config_with_node_id
  run_envoy format node_id w =
      let envoy_bootstrap_cfg = format (envoy_bootstrap_config_with_node_id cfg node_id) in
      elim (parse_fqin parse envoy_container_image_name cfg.default_container_registry_domain) [
        | err e ↦ (w, err (bad_image e))
        | panic ↦ (w, panic)
        | ok img_name ↦
            let (w', r) =
              mgr.pull_image_and_create_container w img_name
                (codes "--config-yaml" ∷ envoy_bootstrap_cfg ∷ []) (proxy_ports cfg) false in
            elim r [ none ↦ (w', err manager_failed) | some _ ↦ (w', ok tt) ]
      ]

  unfoldable pub stop_envoy : mgr.World → mgr.World × Outcome ProxyError (Unit {0})
  stop_envoy w =
      elim (parse_fqin parse envoy_container_image_name cfg.default_container_registry_domain) [
        | err e ↦ (w, err (bad_image e))
        | panic ↦ (w, panic)
        | ok img_name ↦
            let (w', r) = mgr.remove_image_and_container w img_name false in
            elim r [ none ↦ (w', err manager_failed) | some _ ↦ (w', ok tt) ]
      ]
