-- ===== src/Tests/Starts.antt =====
-- The start of a node at concrete inputs.
use car_integrated_service_m.Prelude.{
  ◌+◌, ℕ, pos, Bytes, codes, itoa_int, itoa, true, false, List, [], ◌∷◌, ◌++◌, none, some, ok, All,
  ◌≡◌, ◌≢◌, ◌↔◌, refl, arith,
}
use car_integrated_service_m.Container.Manager.{Manager}
use car_integrated_service_m.Config.Settings.{
  Config, default, Flag, missing, new, flag_central_mode, flag_grpc_port, fix,
  apply_commandline_flags, apply_flag,
}
use car_integrated_service_m.Config.Bootstrap.{envoy_bootstrap_config_with_node_id}
use car_integrated_service_m.Registry.Node.{join_host_port}
use car_integrated_service_m.Discovery.{magic_string, broadcast_byte, bytes_of, is_carisma_message}
use car_integrated_service_m.Discovery.Broadcast.{
  Packet, ticked, discovery_msg, handle_discovery, repeatedly_write_message,
  default_udp_broadcast_addr,
}
use car_integrated_service_m.Discovery.Broadcast.Announcing.{
  good_ticks, handle_discovery_silent, repeatedly_write_message_lem,
}
use car_integrated_service_m.Orchestrator.Proxy.Clusters.{bootstrap_lem, endpoint_of, sources_of}
use car_integrated_service_m.Orchestrator.Run.{
  watched, Environment, Exit, opened, closed, container_manager, connection, proxy, panicked,
  discover_central_node, control_plane_target,
}
use car_integrated_service_m.Orchestrator.Run.Dialling.{dialled_target}
use car_integrated_service_m.Tests.Packets.{gob, faithful}

abbrev central_flags : List Flag
central_flags = flag_central_mode true ∷ flag_grpc_port (pos 9016) ∷ []

abbrev central : Config
central = record (default (codes "hpc-0")) {
  enable_central_mode = true;
  central_node_hostname = codes "hpc-0";
  grpc_port = pos 9016;
}

bootstrap_lem_example :
    let b = envoy_bootstrap_config_with_node_id central (codes "node-0") in
    All
      (λ name.
        endpoint_of b.static_clusters name
        ≡ some (record { address = codes "hpc-0"; port_value = 9016 }))
      (sources_of b)
    × ((b.admin ≢ none) ↔ (false ≡ true))
unfolding default new fix apply_commandline_flags apply_flag
bootstrap_lem_example =
    bootstrap_lem (λ content c. (c, false)) (codes "hpc-0") missing central_flags central
      (codes "node-0") 9016 refl refl (omega arith)

-- A node without a central node that looks for one.
abbrev seeker : Config
seeker = record (default (codes "hpc-1")) { central_node_hostname = []; enable_discovery = true }

abbrev announcement_bytes : Bytes
announcement_bytes = magic_string ++ broadcast_byte ∷ codes "hpc-0:9016"

dialled_target_example :
    (cfg : Config) × (discover_central_node gob seeker (codes "noise" ∷ announcement_bytes ∷ [])
      ≡ ok cfg)
    × (control_plane_target cfg ≡ codes "[hpc-0:9016]:8016")
    × (control_plane_target cfg ≢ codes "hpc-0:8016")
unfolding default bytes_of discovery_msg is_carisma_message itoa_int itoa join_host_port
dialled_target_example =
    dialled_target gob central seeker announcement_bytes (codes "noise" ∷ []) [] faithful refl
      (omega arith) (refl, tt) refl
      ((λ e. cc), ((λ e. cc), ((λ e. cc), ((λ e. cc), ((λ e. cc), tt)))))

handle_discovery_silent_example :
    ((handle_discovery gob (λ a. true) central (ticked true ∷ []) (ticked true ∷ [])).sent
      ≡ (handle_discovery gob (λ a. true) central (ticked true ∷ []) []).sent)
    × ((handle_discovery gob (λ a. true) central [] (ticked true ∷ [])).sent ≡ [])
handle_discovery_silent_example =
    handle_discovery_silent gob (λ a. true) central (ticked true ∷ []) (ticked true ∷ [])

abbrev sent_packet : Packet
sent_packet = record {
  destination = join_host_port default_udp_broadcast_addr (codes "8829");
  data_bytes = announcement_bytes;
}

repeatedly_write_message_lem_test :
    repeatedly_write_message gob
      (λ a. true)
      (codes "8829")
      (discovery_msg central)
      (good_ticks 2)
      (record { closed = false; sent = [] })
    ≡ (record { closed = false; sent = sent_packet ∷ sent_packet ∷ [] }, none)
unfolding default bytes_of discovery_msg itoa_int itoa join_host_port
repeatedly_write_message_lem_test =
    repeatedly_write_message_lem gob (λ a. true) (codes "8829") (discovery_msg central)
      announcement_bytes 2 [] refl refl

-- A manager that counts its calls.
abbrev counter : Manager
counter = record {
  World = ℕ;
  containers = λ w. (w + 1, some []);
  start_container = λ w id. (w + 1, some tt);
  stop_container = λ w id. (w + 1, some tt);
  pull_image_and_create_container = λ w name cmd ports verify. (w + 1, some ([], pos 0));
  remove_image_and_container = λ w name verify. (w + 1, some ([], pos 0));
  close = λ w. (w + 1, some tt);
}

-- The channel of nodes cannot be opened.
abbrev no_channel : Environment ℕ
no_channel = record {
  new_manager = some 0;
  packets = announcement_bytes ∷ [];
  new_client = λ target. true;
  register = some (codes "node-1");
  open_service_channel = true;
  open_node_channel = false;
  new_file_watcher = watched;
  other_goroutine_first = false;
}

abbrev no_channel_exit : Exit ℕ
no_channel_exit = record {
  world = 4;
  events =
      opened container_manager
      ∷ opened connection
      ∷ opened proxy
      ∷ closed proxy
      ∷ closed connection
      ∷ closed container_manager
      ∷ [];
  ending = panicked;
}
