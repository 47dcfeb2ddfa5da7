-- ===== src/Tests/Distributions.antt =====
-- A desired configuration on its way between two nodes, at concrete inputs.
use car_integrated_service_m.Prelude.{
  codes, pos, has_prefix, text_eq, false, [], ◌∷◌, some, lookup, ◌≡◌, refl, last_index, index_of,
  split, last_part, atoi,
}
use car_integrated_service_m.Container.Image.{image_text, parse_image_name, extract_image_list}
use car_integrated_service_m.Container.Reference.{parse_fqin}
use car_integrated_service_m.Config.Deployment.{deployment_config_from_json}
use car_integrated_service_m.Config.Settings.{default}
use car_integrated_service_m.Registry.Node.{
  NodeRegistry, Header, eof, identify, validate_node_id, node_at, get_node_idx, open_channel,
  state_type_desired,
}
use car_integrated_service_m.Orchestrator.{is_managed, qualify, parse_images, process}
use car_integrated_service_m.Orchestrator.Session.{receive, handle_file_diff}
use car_integrated_service_m.Orchestrator.Plan.{plan, running_images, perform_all}
use car_integrated_service_m.Tests.Images.{containers_of}
use car_integrated_service_m.Orchestrator.Session.Distribution.{distribution}
use car_integrated_service_m.Tests.Sessions.{engine, settings, parser, codec, old, reported, after}

abbrev registry : NodeRegistry
registry = record { nodes = record { host = codes "central"; port = pos 8000 } ∷ [] }

abbrev header : Header
header = some (codes "node-0" ∷ [])

distribution_example :
    let sent = (handle_file_diff engine parser settings codec [] [] (codes "{}")).0 in
    let written = (open_channel codec.marshal registry header sent eof).1 in
    let p = receive engine parser settings codec after written in
    (written ≡ record { json = codes "{}"; state_type = state_type_desired } ∷ [])
    × (p.crashed ≡ false)
    × (p.world
        ≡ (perform_all engine after (plan (running_images (containers_of after)) (old ∷ []))).0)
unfolding text_eq identify receive default validate_node_id get_node_idx atoi last_part split
    node_at deployment_config_from_json process lookup qualify parse_images parse_fqin
    parse_image_name last_index index_of extract_image_list is_managed has_prefix
distribution_example =
    distribution engine parser settings codec [] [] (codes "{}") reported registry header
      (record { host = codes "central"; port = pos 8000 }) eof engine parser settings after after []
      (record { state = codes "running"; images = image_text old ∷ [] }) (containers_of after)
      (old ∷ []) (λ c. (codes "{}", refl)) refl refl refl refl refl refl refl (tt, tt) (tt, tt)
