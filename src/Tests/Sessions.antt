-- ===== src/Tests/Sessions.antt =====
-- The session of a node on an engine whose images have bundles.
use car_integrated_service_m.Prelude.{
  ℤ, pos, Bytes, codes, has_prefix, has_suffix, insert, text_eq, lookup, last_index, index_of,
  slice_to, Bool, true, false, ◌&&◌, List, [], ◌∷◌, none, some, if◌then◌else◌, any, ◌≡◌, refl,
}
use car_integrated_service_m.Container.Image.{
  Image, image_text, parse_image_name, extract_image_list,
}
use car_integrated_service_m.Container.Manager.{Manager}
use car_integrated_service_m.Container.Reference.{ParseNormalized, parse_fqin}
use car_integrated_service_m.Config.Settings.{Config, default}
use car_integrated_service_m.Config.Deployment.{DeploymentConfig, json, deployment_config_from_json}
use car_integrated_service_m.Registry.Node.{state_type_desired}
use car_integrated_service_m.Watcher
use car_integrated_service_m.Watcher.{FileWatcher, idle, handling, finish_event, handle_event}
use car_integrated_service_m.Orchestrator.{
  is_managed, is_middleware, process, diff, qualify, parse_images,
}
use car_integrated_service_m.Orchestrator.Differences.{image_eq}
use car_integrated_service_m.Orchestrator.Session.{
  image_texts, Codec, Session, receive, tick, handle_file_diff, apply,
}
use car_integrated_service_m.Orchestrator.Plan.{plan, running_images, perform_all}
use car_integrated_service_m.Orchestrator.Session.Echo.{receive-tick}
use car_integrated_service_m.Orchestrator.Session.Forced.{diff_forced, diff_lost}
use car_integrated_service_m.Tests.Images.{containers_of, without}

-- The bundle ID of an image is its text.
abbrev bundle : Bytes → Bytes × ℤ
bundle text = (text, pos 8080)

abbrev runs : List Bytes → Image → Bool
runs w j = any (λ t. image_eq j (parse_image_name t)) w

abbrev pub engine : Manager
engine = record {
  World = List Bytes;
  containers = λ w. (w, some (containers_of w));
  start_container = λ w id. (w, some tt);
  stop_container = λ w id. (w, some tt);
  pull_image_and_create_container = λ w name cmd ports verify. (name ∷ w, some (bundle name));
  remove_image_and_container = λ w name verify. (
    without (parse_image_name name) w,
    if verify && runs w (parse_image_name name) then some (bundle name) else none,
  );
  close = λ w. (w, some tt);
}

abbrev pub settings : Config
settings = default (codes "hpc-0")

abbrev pub parser : ParseNormalized
parser name =
    if text_eq name (codes "docker.io/mbition/old")
    then some (codes "docker.io/mbition/old", none)
    else none

abbrev pub old : Image
old = record { name = codes "docker.io/mbition/old"; version = codes "v1" }

abbrev before : List Bytes
before = image_text old ∷ []

abbrev pub after : List Bytes
after = codes "docker.io/mbition/new:v1" ∷ []

abbrev pub reported : DeploymentConfig
reported = (codes "hpc-0", record { state = codes "running"; images = image_text old ∷ [] }) ∷ []

abbrev pub codec : Codec
codec = record { unmarshal = λ j. (reported, false); marshal = λ d. some (codes "{}") }

abbrev echoed : Session engine parser settings codec
echoed = receive engine parser settings codec after (tick engine parser settings codec before).1

-- The old image runs again instead of the new one.
receive-tick_test : echoed.world ≡ before
unfolding text_eq tick receive default process diff has_prefix has_suffix last_index parse_fqin
    lookup insert index_of slice_to json deployment_config_from_json qualify parse_images
    parse_image_name extract_image_list is_managed is_middleware
receive-tick_test = refl

receive-tick_example :
    (echoed.crashed ≡ false)
    × (echoed.world
        ≡ (perform_all engine after (
            plan (running_images (containers_of after)) (running_images (containers_of before)))).0)
unfolding text_eq has_prefix last_index parse_fqin is_managed default index_of slice_to image_texts
    extract_image_list parse_image_name
receive-tick_example =
    receive-tick engine parser settings codec before before after after (containers_of before)
      (containers_of after) (codes "{}") refl refl refl refl (refl, tt) (tt, tt) (tt, tt)

abbrev watcher : FileWatcher
watcher = record { last_read = codes "{}"; has_handler = true; phase = idle; calls = [] }

diff_forced_test :
    ((handle_event true (some (codes "{}")) (Watcher.diff true watcher)).calls
      ≡ ([], codes "{}") ∷ [])
    × (handle_file_diff engine parser settings codec before [] (codes "{}") ≡ (
      record { json = codes "{}"; state_type = state_type_desired } ∷ [],
      apply engine parser settings codec before reported,
    ))
diff_forced_test =
    diff_forced engine parser settings codec watcher (codes "{}") reported before refl refl
      (λ e. cc) refl

abbrev busy : FileWatcher
busy = record watcher { phase = handling (codes "{}") }

diff_lost_example :
    (handle_event true (some (codes "{}")) (finish_event (Watcher.diff true busy))
      ≡ handle_event true (some (codes "{}")) (finish_event busy))
    × ((handle_event true (some (codes "{}")) (finish_event (Watcher.diff true busy))).calls
        ≡ (codes "{}", codes "{}") ∷ [])
    × (handle_file_diff engine parser settings codec before (codes "{}") (codes "{}")
        ≡ ([], record { world = before; calls = []; crashed = false }))
diff_lost_example = diff_lost engine parser settings codec busy (codes "{}") before refl refl
