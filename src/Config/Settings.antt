-- ===== src/Config/Settings.antt =====
-- pkg/config/config.go: the settings of a node, from defaults, a file and the command line.
-- `json.Unmarshal` is an argument. The command line is the list of the flags that it sets, as the
-- package `flag` has parsed them; help texts are left out.
pub mod Sources
use car_integrated_service_m.Prelude.{
  ℤ, pos, Bytes, codes, Bool, true, false, List, [], ◌∷◌, if◌then◌else◌, Outcome, ok, err,
}

pub record Config : Type 0 where
  pub enable_debug_mode : Bool
  pub emulate_container_runtime : Bool
  pub enable_central_mode : Bool
  pub enable_discovery : Bool
  pub central_node_hostname : Bytes
  pub node_hostname : Bytes
  pub status_mgr_port : ℤ
  pub grpc_port : ℤ
  pub udp_port : ℤ
  pub udp_delay : ℤ
  pub udp_timeout : ℤ
  pub ingress_port : ℤ
  pub egress_port : ℤ
  pub admin_port : ℤ
  pub default_container_registry_domain : Bytes

-- The argument is the result of `os.Hostname`, which is empty at an error.
unfoldable pub default : Bytes → Config
default hostname = record {
  enable_debug_mode = false;
  emulate_container_runtime = false;
  enable_central_mode = false;
  enable_discovery = false;
  central_node_hostname = codes "carisma-central";
  node_hostname = hostname;
  status_mgr_port = pos 8010;
  grpc_port = pos 8016;
  udp_port = pos 8829;
  udp_delay = pos 5;
  udp_timeout = pos 60;
  ingress_port = pos 8000;
  egress_port = pos 9000;
  admin_port = pos 9901;
  default_container_registry_domain = codes "docker.io";
}

-- A decoder writes into the settings it is given; it fails with what it has written so far.
abbrev pub Decoder : Type 0
Decoder = Bytes → Config → Config × Bool

unfoldable pub apply_arguments_from_config_file_content : Decoder → Config → Bytes → Config × Bool
apply_arguments_from_config_file_content unmarshal c content =
    let (c', failed) = unmarshal content c in if failed then (c', true) else (c', false)

-- One flag of the command line with its value. There is none for the admin port.
pub data Flag : Type 0 where
  flag_debug_mode flag_emulate_container_runtime flag_central_mode flag_discovery : Bool → Flag
  flag_central_node flag_node flag_default_container_registry_domain : Bytes → Flag
  flag_status_manager_port flag_grpc_port flag_udp_port flag_udp_delay flag_udp_timeout : ℤ → Flag
  flag_ingress_port flag_egress_port : ℤ → Flag

unfoldable pub apply_flag : Config → Flag → Config
apply_flag c (flag_debug_mode b) = record c { enable_debug_mode = b }
apply_flag c (flag_emulate_container_runtime b) = record c { emulate_container_runtime = b }
apply_flag c (flag_central_mode b) = record c { enable_central_mode = b }
apply_flag c (flag_discovery b) = record c { enable_discovery = b }
apply_flag c (flag_central_node s) = record c { central_node_hostname = s }
apply_flag c (flag_node s) = record c { node_hostname = s }
apply_flag c (flag_default_container_registry_domain s) = record c {
  default_container_registry_domain = s;
}
apply_flag c (flag_status_manager_port n) = record c { status_mgr_port = n }
apply_flag c (flag_grpc_port n) = record c { grpc_port = n }
apply_flag c (flag_udp_port n) = record c { udp_port = n }
apply_flag c (flag_udp_delay n) = record c { udp_delay = n }
apply_flag c (flag_udp_timeout n) = record c { udp_timeout = n }
apply_flag c (flag_ingress_port n) = record c { ingress_port = n }
apply_flag c (flag_egress_port n) = record c { egress_port = n }

unfoldable pub apply_commandline_flags : Config → List Flag → Config
unfolding apply_flag
apply_commandline_flags c [] = c
apply_commandline_flags c (f ∷ fs) = apply_commandline_flags (apply_flag c f) fs

unfoldable pub fix : Config → Config
fix c = if c.enable_central_mode then record c { central_node_hostname = c.node_hostname } else c

-- What `os.Stat` and `os.ReadFile` find at the path of the settings file.
pub data ConfigFile : Type 0 where
  missing unreadable : ConfigFile
  readable : Bytes → ConfigFile

pub data ConfigError : Type 0 where
  read_failed invalid_json : ConfigError

unfoldable pub new : Decoder → Bytes → ConfigFile → List Flag → Outcome ConfigError Config
unfolding fix apply_commandline_flags default apply_arguments_from_config_file_content
new unmarshal hostname missing flags = ok (fix (apply_commandline_flags (default hostname) flags))
new unmarshal hostname unreadable flags = err read_failed
new unmarshal hostname (readable content) flags =
    let (cfg, failed) =
      apply_arguments_from_config_file_content unmarshal (default hostname) content in
    if failed then err invalid_json else ok (fix (apply_commandline_flags cfg flags))
