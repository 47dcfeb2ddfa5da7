-- ===== src/Tests/Engines.antt =====
-- The Docker manager on an engine that keeps a list of containers.
use car_integrated_service_m.Prelude.{
  pos, Bytes, codes, text_eq, atoi, to_int32, to_uint32, not, List, [], ◌∷◌, ◌++◌, map, select,
  none, some, ok, ◌≡◌, refl, true, false,
}
use car_integrated_service_m.Container.Docker.{
  Client, Summary, TarEntry, next, broken, Unmarshal, bundle_config_file_name, read_archive,
  containers_of, remove_image_and_container, first_service_port,
}
use car_integrated_service_m.Container.Docker.Bundles.{
  read_archive_lem, containers_of-named, container_of,
}
use car_integrated_service_m.Container.Docker.Removals.{
  of_container, of_image, recording, remove_first_only,
}

abbrev summary : Bytes → Summary
summary id = record {
  id = id;
  names = (codes "/" ++ id) ∷ [];
  image = codes "app:v1";
  image_id = codes "sha";
  ports = [];
  status = codes "Up";
}

abbrev descriptor : TarEntry
descriptor = record {
  name = bundle_config_file_name;
  is_regular = true;
  content = some (codes "app");
}

abbrev folder : TarEntry
folder = record { name = bundle_config_file_name; is_regular = false; content = none }

abbrev client : Client
client = record {
  World = List Summary;
  container_list = λ w filter. (w, some w);
  container_start = λ w id. (w, some tt);
  container_stop = λ w id. (w, some tt);
  container_remove = λ w id. (select (λ c. not (text_eq c.id id)) w, some tt);
  image_remove = λ w id. (w, some tt);
  image_pull = λ w name. (w, some tt);
  container_create = λ w name args port_bindings. (w, some (codes "new"));
  copy_from_container = λ w id file. (w, some (next folder (next descriptor broken)));
  container_inspect = λ w id.
      (w, some ((codes "80/tcp", record { host_ip = []; host_port = codes "8080" } ∷ []) ∷ []));
  close = λ w. (w, some tt);
}

abbrev unmarshal : Unmarshal
unmarshal content = some (record { bundle_id = content })

abbrev two : List Summary
two = summary (codes "a") ∷ summary (codes "b") ∷ []

-- Of two containers of the image, the first is removed.
remove_test :
    remove_image_and_container client unmarshal two (codes "app:v1") true
    ≡ (summary (codes "b") ∷ [], ok (codes "app", pos 8080))
unfolding remove_image_and_container text_eq atoi to_int32 to_uint32 read_archive first_service_port
remove_test = refl

recorded_test :
    remove_image_and_container (recording client) unmarshal (two, []) (codes "app:v1") true ≡ (
      (summary (codes "b") ∷ [], of_container (codes "a") ∷ of_image (codes "sha") ∷ []),
      ok (codes "app", pos 8080),
    )
unfolding remove_image_and_container text_eq atoi to_int32 to_uint32 read_archive first_service_port
recorded_test = refl

remove_first_only_example :
    (c : Summary) × (cs : List Summary) × (some two ≡ some (c ∷ cs))
    × ((remove_image_and_container (recording client) unmarshal (two, []) (codes "app:v1") true).0.1
        ≡ of_container c.id ∷ of_image c.image_id ∷ [])
remove_first_only_example =
    remove_first_only client unmarshal two [] (codes "app:v1") true (codes "app", pos 8080)
      (λ i. (recorded_test i).1)

read_archive_lem_test :
    read_archive unmarshal (next folder (next descriptor broken))
    ≡ ok (record { bundle_id = codes "app" })
unfolding text_eq
read_archive_lem_test = read_archive_lem unmarshal (folder ∷ []) descriptor broken (refl, tt) refl

containers_of-named_test : containers_of two ≡ ok (map container_of two)
containers_of-named_test = containers_of-named two ((λ e. cc), ((λ e. cc), tt))
