-- ===== src/Tests/Services.antt =====
-- The service registry at concrete inputs.
use car_integrated_service_m.Prelude.{
  ℤ, pos, Bytes, codes, ◌≡◌, ◌↔◌, refl, [], ◌∷◌, some, ok, panic, length, true, false,
  if◌then◌else◌, last_or, text_eq, lookup, insert, erase,
}
use car_integrated_service_m.Registry.Node.{Header, eof, NodeRegistry}
use car_integrated_service_m.Registry.Service.{
  ServiceConfigSnapshot, ServiceAnnouncement, ServiceError, register_service, unregister_service,
  serve, open_channel, registration_state_registered, stream_result,
}
use car_integrated_service_m.Registry.Service.Ports.{sort, compact, index, delete}
use car_integrated_service_m.Registry.Service.Snapshots.{has, same, IsValid, IsValid-nil}
use car_integrated_service_m.Registry.Service.Registrations.{register_service_lem}
use car_integrated_service_m.Registry.Service.Removals.{unregister_service_lem}
use car_integrated_service_m.Registry.Service.Channel.{last_word, serve_lem, open_channel_panics}

abbrev node_0 : Bytes
node_0 = codes "node-0"

abbrev app : Bytes
app = codes "com.app"

abbrev services : ServiceConfigSnapshot
services = (node_0, (app, pos 80 ∷ pos 90 ∷ []) ∷ []) ∷ []

register_service_test :
    register_service {E = ServiceError} services node_0 app (pos 85)
    ≡ ok ((node_0, (app, pos 80 ∷ pos 85 ∷ pos 90 ∷ []) ∷ []) ∷ [])
unfolding register_service lookup insert text_eq sort compact
register_service_test = refl

unregister_service_test :
    unregister_service {E = ServiceError}
      ((node_0, (app, pos 80 ∷ []) ∷ []) ∷ [])
      node_0
      app
      (pos 80)
    ≡ ok ((node_0, []) ∷ [])
unfolding unregister_service lookup insert erase text_eq index delete
unregister_service_test = refl

register_service_lem_example :
    (s' : ServiceConfigSnapshot) × (register_service {E = ServiceError} [] node_0 app (pos 80)
      ≡ ok s')
    × IsValid s'
    × ((m d : Bytes) (q : ℤ)
        → has s' m d q ≡ (if same node_0 app (pos 80) m d q then true else has [] m d q))
register_service_lem_example =
    register_service_lem {E = ServiceError} [] node_0 app (pos 80) IsValid-nil

-- A snapshot with one registered port.
abbrev registered_once : (s : ServiceConfigSnapshot) × IsValid s
registered_once =
    let r = register_service_lem {E = ServiceError} [] node_0 app (pos 80) IsValid-nil in (r.0, r.2)

unregister_service_lem_example :
    let s = registered_once.0 in
    (s' : ServiceConfigSnapshot) × (unregister_service {E = ServiceError} s node_0 app (pos 80)
      ≡ ok s')
    × IsValid s'
    × ((m d : Bytes) (q : ℤ)
        → has s' m d q ≡ (if same node_0 app (pos 80) m d q then false else has s m d q))
unregister_service_lem_example =
    unregister_service_lem {E = ServiceError} registered_once.0 node_0 app (pos 80)
      registered_once.1

abbrev start : ServiceAnnouncement
start = record {
  bundle_id = app;
  local_port = pos 80;
  registration_state = registration_state_registered;
}

abbrev stop : ServiceAnnouncement
stop = record { bundle_id = app; local_port = pos 80; registration_state = pos 1 }

serve_lem_example :
    ((serve [] node_0 (start ∷ stop ∷ []) eof).result ≡ stream_result eof)
    × IsValid (serve [] node_0 (start ∷ stop ∷ []) eof).services
    × (length (serve [] node_0 (start ∷ stop ∷ []) eof).updates ≡ 2)
    × (last_or [] (serve [] node_0 (start ∷ stop ∷ []) eof).updates
        ≡ (serve [] node_0 (start ∷ stop ∷ []) eof).services)
    × ((m d : Bytes) (q : ℤ)
        → has (serve [] node_0 (start ∷ stop ∷ []) eof).services m d q ≡ (
            if text_eq node_0 m
            then last_word (start ∷ stop ∷ []) d q (has [] m d q)
            else has [] m d q))
serve_lem_example = serve_lem node_0 [] (start ∷ stop ∷ []) eof IsValid-nil

abbrev no_nodes : NodeRegistry
no_nodes = record { nodes = [] }

open_channel_panics_test :
    ((open_channel no_nodes [] (some []) (start ∷ []) eof).result ≡ panic)
    ↔ (◌≡◌ {A = Header} (some []) (some []))
open_channel_panics_test = open_channel_panics no_nodes [] (some []) (start ∷ []) eof IsValid-nil
