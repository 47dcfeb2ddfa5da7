-- ===== src/Container/Docker/Removals.antt =====
-- What a removal asks of the engine.
use car_integrated_service_m.Prelude.{
  ℤ, Bytes, Bool, true, false, List, [], ◌∷◌, ◌++◌, append_assoc, Option, none, some, Outcome, ok,
  err, panic, ◌≡◌, ◌∙◌, refl, sym, ap, arith,
}
use car_integrated_service_m.Container.Docker.{
  Client, Summary, DockerError, Unmarshal, bundle_configuration, container_service_port, bundle_of,
  verified, remove_both, remove_first, remove_image_and_container,
}

-- A call that removes the container or the image with an ID.
pub data Removal : Type 0 where
  of_container of_image : Bytes → Removal

-- A client that records these calls, beside the state of the engine.
abbrev pub recording : Client → Client
recording client = record {
  World = client.World × List Removal;
  container_list = λ w image. let r = client.container_list w.0 image in ((r.0, w.1), r.1);
  container_start = λ w id. let r = client.container_start w.0 id in ((r.0, w.1), r.1);
  container_stop = λ w id. let r = client.container_stop w.0 id in ((r.0, w.1), r.1);
  container_remove =
      λ w id. let r = client.container_remove w.0 id in ((r.0, w.1 ++ of_container id ∷ []), r.1);
  image_remove =
      λ w id. let r = client.image_remove w.0 id in ((r.0, w.1 ++ of_image id ∷ []), r.1);
  image_pull = λ w name. let r = client.image_pull w.0 name in ((r.0, w.1), r.1);
  container_create =
      λ w name args ports. let r = client.container_create w.0 name args ports in ((r.0, w.1), r.1);
  copy_from_container =
      λ w id file. let r = client.copy_from_container w.0 id file in ((r.0, w.1), r.1);
  container_inspect = λ w id. let r = client.container_inspect w.0 id in ((r.0, w.1), r.1);
  close = λ w. let r = client.close w.0 in ((r.0, w.1), r.1);
}

module _ (client : Client) (unmarshal : Unmarshal) where
  abbrev recorder : Client
  recorder = recording client

  container_service_port-recorded :
      (w : recorder.World) (id : Bytes) → (container_service_port recorder unmarshal w id).0.1 ≡ w.1
  unfolding container_service_port
  container_service_port-recorded w id = ground arith

  bundle_configuration-recorded :
      (w : recorder.World) (id : Bytes) → (bundle_configuration recorder unmarshal w id).0.1 ≡ w.1
  unfolding bundle_configuration
  bundle_configuration-recorded w id = ground arith

  bundle_of-recorded :
      (w : recorder.World) (id : Bytes) → (bundle_of recorder unmarshal w id).0.1 ≡ w.1
  unfolding bundle_of
  bundle_of-recorded w id = ground (
    arith,
    bundle_configuration-recorded w id,
    container_service_port-recorded (bundle_configuration recorder unmarshal w id).0 id,
  )

  verified-recorded :
      (w : recorder.World) (id : Bytes) (verify_bundle_config : Bool)
      → (verified recorder unmarshal w id verify_bundle_config).0.1 ≡ w.1
  unfolding verified
  verified-recorded w id true = bundle_of-recorded w id
  verified-recorded w id false = refl

  remove_both-recorded :
      (w : recorder.World) (c : Summary) (bundle bundle' : Bytes × ℤ)
      → (remove_both recorder unmarshal w c bundle).1 ≡ ok bundle'
      → (remove_both recorder unmarshal w c bundle).0.1
        ≡ w.1 ++ of_container c.id ∷ of_image c.image_id ∷ []
  unfolding remove_both
  remove_both-recorded w c bundle bundle' h =
      let both = append_assoc w.1 (of_container c.id ∷ []) (of_image c.image_id ∷ []) in
      ground (arith, h, both)

  remove_first-recorded :
      (w : recorder.World) (c : Summary) (cs : List Summary) (verify_bundle_config : Bool)
      (bundle : Bytes × ℤ)
      → (remove_first recorder unmarshal w (c ∷ cs) verify_bundle_config).1 ≡ ok bundle
      → (remove_first recorder unmarshal w (c ∷ cs) verify_bundle_config).0.1
        ≡ w.1 ++ of_container c.id ∷ of_image c.image_id ∷ []
  unfolding remove_first
  remove_first-recorded w c cs verify_bundle_config bundle =
      by_verified (verified recorder unmarshal w c.id verify_bundle_config).1 refl
    where
      by_verified :
          (r : Outcome DockerError (Bytes × ℤ))
          → (verified recorder unmarshal w c.id verify_bundle_config).1 ≡ r
          → (remove_first recorder unmarshal w (c ∷ cs) verify_bundle_config).1 ≡ ok bundle
          → (remove_first recorder unmarshal w (c ∷ cs) verify_bundle_config).0.1
            ≡ w.1 ++ of_container c.id ∷ of_image c.image_id ∷ []
      by_verified (err x) e h = absurd (ground (arith, e, h))
      by_verified panic e h = absurd (ground (arith, e, h))
      by_verified (ok b) e h =
          let w' = (verified recorder unmarshal w c.id verify_bundle_config).0 in
          let both : remove_first recorder unmarshal w (c ∷ cs) verify_bundle_config
              ≡ remove_both recorder unmarshal w' c b =
            rw (remove_first, e) refl in
          ap (λ r. r.0.1) both
          ∙ remove_both-recorded w' c b bundle (sym (ap (λ r. r.1) both) ∙ h)
          ∙ ap (λ l. l ++ of_container c.id ∷ of_image c.image_id ∷ [])
              (verified-recorded w c.id verify_bundle_config)

  -- For any client: if a removal succeeds, the engine listed a first container of the image, and the
  -- calls that remove something were those for this container and then for its image, and no other,
  -- however many containers of the image were listed.
  pub remove_first_only :
      (w : client.World) (calls : List Removal) (image_name : Bytes) (verify_bundle_config : Bool)
      (bundle : Bytes × ℤ)
      → let p =
          remove_image_and_container
            (recording client)
            unmarshal
            (w, calls)
            image_name
            verify_bundle_config in
        p.1 ≡ ok bundle
        → (c : Summary) × (cs : List Summary) × ((client.container_list w (some image_name)).1
            ≡ some (c ∷ cs))
          × (p.0.1 ≡ calls ++ of_container c.id ∷ of_image c.image_id ∷ [])
  unfolding remove_image_and_container
  remove_first_only w calls image_name verify_bundle_config bundle =
      by_list (client.container_list w (some image_name)).1 refl
    where
      by_list :
          (r : Option (List Summary))
          → (client.container_list w (some image_name)).1 ≡ r
          → let p =
              remove_image_and_container
                (recording client)
                unmarshal
                (w, calls)
                image_name
                verify_bundle_config in
            p.1 ≡ ok bundle
            → (c : Summary) × (cs : List Summary) × ((client.container_list w (some image_name)).1
                ≡ some (c ∷ cs))
              × (p.0.1 ≡ calls ++ of_container c.id ∷ of_image c.image_id ∷ [])
      by_list none e h = absurd (ground (arith, e, h))
      by_list (some []) e h = absurd (unfold remove_first in ground (arith, e, h))
      by_list (some (c ∷ cs)) e h = (
        c,
        cs,
        e,
        ground (
          arith,
          e,
          h,
          remove_first-recorded ((client.container_list w (some image_name)).0, calls) c cs
              verify_bundle_config bundle,
        ),
      )
