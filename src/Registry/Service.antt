-- ===== src/Registry/Service.antt =====
-- pkg/registry/service_regisry.go: the ports of every service on every node, and the channel on
-- which a node announces its services. A send on `updateChannel` is recorded with what
-- the map of services holds when it is sent; the code sends its one map and no copy of it, so the
-- receiver can find later changes in it too. A send that waits for good is not seen here, but in
-- ControlPlane. The functions of the package `slices` are in Registry/Service/Ports.antt.
pub mod Ports
pub mod Snapshots
pub mod Registrations
pub mod Removals
pub mod Channel
use car_integrated_service_m.Prelude.{
  ℤ, pos, eqb_ℤ, Bytes, Assoc, lookup, insert, erase, List, [], ◌∷◌, ◌++◌, Option, none, some,
  if◌then◌else◌, Outcome, ok, err, panic, Bool, true, false,
}
use car_integrated_service_m.Registry.Node.{
  NodeRegistry, Header, StreamEnd, eof, broken, validate_node_id,
}
use car_integrated_service_m.Registry.Service.Ports.{sort, compact, index, delete, contains}

-- For each node ID, the ports of each bundle ID.
abbrev pub ServiceConfigSnapshot : Type 0
ServiceConfigSnapshot = Assoc (Assoc (List ℤ))

-- A missing key reads as a nil map, and as a nil slice.
abbrev pub service_config : ServiceConfigSnapshot → Bytes → Assoc (List ℤ)
service_config services node_id = elim (lookup node_id services) [ none ↦ [] | some c ↦ c ]

abbrev pub ports_of : Assoc (List ℤ) → Bytes → List ℤ
ports_of config bundle_id = elim (lookup bundle_id config) [ none ↦ [] | some ports ↦ ports ]

unfoldable pub service_ports : ServiceConfigSnapshot → Bytes → Bytes → List ℤ
service_ports services node_id bundle_id = ports_of (service_config services node_id) bundle_id

-- `services[nodeID][bundleID] = ports`, which panics on a nil map.
unfoldable pub assign_ports :
    {E : Type 0} → ServiceConfigSnapshot → Bytes → Bytes → List ℤ → Outcome E ServiceConfigSnapshot
assign_ports services node_id bundle_id ports = elim (lookup node_id services) [
  | none ↦ panic
  | some c ↦ ok (insert node_id (insert bundle_id ports c) services)
]

-- `delete(services[nodeID], bundleID)`, which does nothing to a nil map.
unfoldable pub delete_bundle : ServiceConfigSnapshot → Bytes → Bytes → ServiceConfigSnapshot
delete_bundle services node_id bundle_id = elim (lookup node_id services) [
  | none ↦ services
  | some c ↦ insert node_id (erase bundle_id c) services
]

-- `if _, ok := s.services[nodeID]; !ok { … }`
unfoldable pub ensure_node : ServiceConfigSnapshot → Bytes → ServiceConfigSnapshot
ensure_node services node_id = elim (lookup node_id services) [
  | none ↦ insert node_id [] services
  | some c ↦ services
]

unfoldable pub register_service :
    {E : Type 0} → ServiceConfigSnapshot → Bytes → Bytes → ℤ → Outcome E ServiceConfigSnapshot
unfolding ensure_node assign_ports service_ports
register_service services node_id bundle_id port =
    let present = ensure_node services node_id in
    let ports = service_ports present node_id bundle_id ++ port ∷ [] in
    assign_ports present node_id bundle_id (compact (sort ports))

-- `if len(s.services[nodeID][bundleID]) == 0 { … }`
unfoldable pub drop_empty : ServiceConfigSnapshot → Bytes → Bytes → ServiceConfigSnapshot
unfolding service_ports delete_bundle
drop_empty services node_id bundle_id = elim (service_ports services node_id bundle_id) [
  | [] ↦ delete_bundle services node_id bundle_id
  | _ ↦ services
]

unfoldable pub unregister_service :
    {E : Type 0} → ServiceConfigSnapshot → Bytes → Bytes → ℤ → Outcome E ServiceConfigSnapshot
unfolding service_ports assign_ports drop_empty
unregister_service services node_id bundle_id port =
    let ports = service_ports services node_id bundle_id in
    elim (index ports port) [
      | none ↦ ok (drop_empty services node_id bundle_id)
      | some i ↦ elim (assign_ports services node_id bundle_id (delete ports i)) [
        | ok services' ↦ ok (drop_empty services' node_id bundle_id)
        | err e ↦ err e
        | panic ↦ panic
      ]
    ]

-- The enum of the message is open: any int32 can arrive, and all but 0 unregister.
abbrev pub registration_state_registered : ℤ
registration_state_registered = pos 0

pub record ServiceAnnouncement : Type 0 where
  pub bundle_id : Bytes
  pub local_port : ℤ
  pub registration_state : ℤ

abbrev pub registers : ServiceAnnouncement → Bool
registers a = eqb_ℤ a.registration_state registration_state_registered

-- What one announcement of a node does.
unfoldable pub announced :
    {E : Type 0}
    → ServiceConfigSnapshot
    → Bytes
    → ServiceAnnouncement
    → Outcome E ServiceConfigSnapshot
announced services node_id a =
    if registers a
    then register_service services node_id a.bundle_id a.local_port
    else unregister_service services node_id a.bundle_id a.local_port

pub data ServiceError : Type 0 where
  missing_header receive_failed : ServiceError

-- The services after the calls so far, the snapshots that were sent, and the handler's result.
pub record Served : Type 0 where
  pub services : ServiceConfigSnapshot
  pub updates : List ServiceConfigSnapshot
  pub result : Outcome ServiceError (Unit {0})

abbrev pub stream_result : StreamEnd → Outcome ServiceError (Unit {0})
stream_result eof = ok tt
stream_result broken = err receive_failed

-- The loop over `stream.Recv()`.
unfoldable pub serve : ServiceConfigSnapshot → Bytes → List ServiceAnnouncement → StreamEnd → Served
serve services node_id [] end = record {
  services = services;
  updates = [];
  result = stream_result end;
}
serve services node_id (a ∷ as') end = elim (announced {E = ServiceError} services node_id a) [
  | ok services' ↦
      let rest = serve services' node_id as' end in
      record rest { updates = services' ∷ rest.updates }
  | err e ↦ record { services = services; updates = []; result = err e }
  | panic ↦ record { services = services; updates = []; result = panic }
]

-- `nodeID[0]` is read before the length of `nodeID` is tested.
unfoldable pub open_channel :
    NodeRegistry → ServiceConfigSnapshot → Header → List ServiceAnnouncement → StreamEnd → Served
open_channel nodes services none as' end = record {
  services = services;
  updates = [];
  result = err missing_header;
}
open_channel nodes services (some []) as' end = record {
  services = services;
  updates = [];
  result = panic;
}
open_channel nodes services (some (node_id ∷ _)) as' end = elim (validate_node_id nodes node_id) [
  | ok idx ↦ serve services node_id as' end
  | err e ↦ record { services = services; updates = []; result = err missing_header }
  | panic ↦ record { services = services; updates = []; result = panic }
]
