-- ===== src/Orchestrator/Session/Echo.antt =====
-- A node that receives its own report.
use car_integrated_service_m.Prelude.{
  Bytes, text_eq_refl, Lacks, lookup, false, List, [], ◌∷◌, select, All, some, ok, ◌≡◌, ◌∙◌, refl,
  ap, arith,
}
use car_integrated_service_m.Container.{Container}
use car_integrated_service_m.Container.Image.{Image, extract_image_list}
use car_integrated_service_m.Container.Image.RoundTrip.{
  parse_image_name-image_text, image_text-parse_image_name,
}
use car_integrated_service_m.Container.Manager.{Manager}
use car_integrated_service_m.Container.Reference.{ParseNormalized, parse_fqin}
use car_integrated_service_m.Config.Settings.{Config}
use car_integrated_service_m.Config.Deployment.{
  DeploymentConfig, deployment_config_from_json, json, node_state_running,
}
use car_integrated_service_m.Registry.Node.{DeploymentMessage, state_type_actual}
use car_integrated_service_m.Orchestrator.{is_managed, parse_images, qualify, process}
use car_integrated_service_m.Orchestrator.Differences.{IsUniquelyNamed}
use car_integrated_service_m.Orchestrator.Plan.{plan, running_images, perform_all, process_lem}
use car_integrated_service_m.Orchestrator.Session.{
  Codec, image_texts, apply, receive, tick, actual_config,
}

-- An image text is read back only if the version has no colon.
abbrev IsTagged : List Image → Type 0
IsTagged = All (λ i. Lacks b':' i.version)

IsTagged-extract_image_list : (cs : List Container) → IsTagged (extract_image_list cs)
unfolding extract_image_list
IsTagged-extract_image_list [] = tt
IsTagged-extract_image_list (c ∷ cs) =
    ((image_text-parse_image_name c.image).0, IsTagged-extract_image_list cs)

parse_images-image_texts : (is : List Image) → IsTagged is → parse_images (image_texts is) ≡ is
unfolding parse_images image_texts
parse_images-image_texts [] h = refl
parse_images-image_texts (i ∷ is) h =
    rw (parse_image_name-image_text i h.0, parse_images-image_texts is h.1) refl

-- The names are fully qualified already.
abbrev pub IsQualified : ParseNormalized → Bytes → List Image → Type 0
IsQualified parse domain = All (λ i. parse_fqin parse i.name domain ≡ ok i.name)

qualify-qualified :
    (parse : ParseNormalized) (domain : Bytes) (is : List Image)
    → IsQualified parse domain is
    → qualify parse domain is ≡ ok is
unfolding qualify
qualify-qualified parse domain [] h = refl
qualify-qualified parse domain (i ∷ is) h =
    ground (arith, h.0, qualify-qualified parse domain is h.1)

module _ (mgr : Manager) (parse : ParseNormalized) (cfg : Config) (codec : Codec) where
  tick-sent :
      (w w' : mgr.World) (cs : List Container) (j : Bytes)
      → mgr.containers w ≡ (w', some cs)
      → codec.marshal (actual_config mgr parse cfg codec cs) ≡ some j
      → (tick mgr parse cfg codec w).1 ≡ record { json = j; state_type = state_type_actual } ∷ []
  unfolding tick json
  tick-sent w w' cs j e m = ground (arith, e, m)

  pub receive_one :
      (w : mgr.World) (msg : DeploymentMessage) (d : DeploymentConfig)
      → codec.unmarshal msg.json ≡ (d, false)
      → (process mgr parse cfg w d).result ≡ ok tt
      → ((receive mgr parse cfg codec w (msg ∷ [])).crashed ≡ false)
        × ((receive mgr parse cfg codec w (msg ∷ [])).world ≡ (process mgr parse cfg w d).world)
  unfolding receive apply deployment_config_from_json
  receive_one w msg d u r = ground (arith, u, r)

  -- For any container manager: if the own report of a node, which is decoded to what was encoded, is
  -- received in a later state, where the containers can be listed at both times, the names of the
  -- images at the report are fully qualified, and at neither time a name stands twice, then the node
  -- goes back to the report: it asks to remove each image that runs now and did not then, but for the
  -- middleware, and to install each image that ran then and does not now.
  pub receive-tick :
      (w w' later later' : mgr.World) (cs now : List Container) (j : Bytes)
      → mgr.containers w ≡ (w', some cs)
      → mgr.containers later ≡ (later', some now)
      → codec.marshal (actual_config mgr parse cfg codec cs) ≡ some j
      → codec.unmarshal j ≡ (actual_config mgr parse cfg codec cs, false)
      → IsQualified parse cfg.default_container_registry_domain (running_images cs)
      → IsUniquelyNamed (running_images cs)
      → IsUniquelyNamed (running_images now)
      → let p = receive mgr parse cfg codec later (tick mgr parse cfg codec w).1 in
        (p.crashed ≡ false)
        × (p.world ≡ (perform_all mgr later' (plan (running_images now) (running_images cs))).0)
  unfolding lookup
  receive-tick w w' later later' cs now j e e' m decoded qualified unique unique' =
      let d = actual_config mgr parse cfg codec cs in
      let is = running_images cs in
      let named : lookup cfg.node_hostname d
          ≡ some (record { state = node_state_running; images = image_texts is }) =
        ground (arith, text_eq_refl cfg.node_hostname) in
      let q : qualify parse cfg.default_container_registry_domain (parse_images (image_texts is))
          ≡ ok is =
        ap (qualify parse cfg.default_container_registry_domain)
          (parse_images-image_texts is (IsTagged-extract_image_list (select is_managed cs)))
        ∙ qualify-qualified parse cfg.default_container_registry_domain is qualified in
      let (r, x) = process_lem mgr parse cfg later later' d _ now is named e' q unique' unique in
      let (c, v) =
        receive_one later (record { json = j; state_type = state_type_actual }) d decoded r in
      rw (tick-sent w w' cs j e m) (c, v ∙ ap (λ p. p.0) x)
