-- ===== src/Container/Ports.antt =====
-- How the managers print ports: `formatPorts` of pkg/container/docker_container_manager.go and
-- `formatPortBindings` of pkg/container/debug_container_manager.go.
pub mod Joined
use car_integrated_service_m.Prelude.{
  ℕ, suc, Bytes, codes, itoa, length, List, [], ◌∷◌, ◌++◌, append_assoc, append-nil, Bool, true,
  false, not, ◌&&◌, if◌then◌else◌, join, ltb, map, All, ◌≡◌, ◌≢◌, ◌∙◌, refl, ap, sym, arith,
}
use car_integrated_service_m.Container.{wildcard_ip}
use car_integrated_service_m.Container.Manager.{PortBinding, PortMap}

-- `container.Port` of the Docker API; the two ports are `uint16`.
pub record Port : Type 0 where
  pub ip : Bytes
  pub private_port : ℕ
  pub public_port : ℕ
  pub type : Bytes

abbrev pub shown_ip : Bytes → Bytes
shown_ip [] = wildcard_ip
shown_ip (c ∷ ip) = c ∷ ip

abbrev pub port_text : Port → Bytes
port_text port =
    shown_ip port.ip
    ++ (codes ":"
        ++ (itoa port.public_port
            ++ (codes "->" ++ (itoa port.private_port ++ (codes "/" ++ port.type)))))

-- The loop of `formatPorts`, from an index on.
unfoldable pub format_ports_from : Bool → Bytes → List Port → Bytes
format_ports_from first sb [] = sb
format_ports_from first sb (port ∷ ports) =
    format_ports_from false ((if first then sb else sb ++ codes ", ") ++ port_text port) ports

unfoldable pub format_ports : List Port → Bytes
unfolding format_ports_from
format_ports ports = format_ports_from true [] ports

abbrev pub binding_text : Bytes → PortBinding → Bytes
binding_text container_port port =
    shown_ip port.host_ip ++ (codes ":" ++ (port.host_port ++ (codes "->" ++ container_port)))

-- The inner loop of `formatPortBindings`; the Boolean says whether the index is 0.
unfoldable pub format_host_ports : Bytes → Bool → Bytes → List PortBinding → Bytes
format_host_ports container_port first sb [] = sb
format_host_ports container_port first sb (port ∷ host_ports) =
    format_host_ports container_port false
      ((if first then sb else sb ++ codes ", ") ++ binding_text container_port port) host_ports

-- The outer loop, over the entries in the order in which `range` visits them.
unfoldable pub format_bindings : Bool → Bool → Bytes → PortMap → Bytes
unfolding format_host_ports
format_bindings several first sb [] = sb
format_bindings several first sb ((container_port, host_ports) ∷ visit) =
    format_bindings several false
      (format_host_ports container_port true (if not first && several then sb ++ codes ", " else sb)
        host_ports)
      visit

unfoldable pub format_port_bindings : PortMap → Bytes
unfolding format_bindings
format_port_bindings visit = format_bindings (ltb 1 (length visit)) true [] visit
