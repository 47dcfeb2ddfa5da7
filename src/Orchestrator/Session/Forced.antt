-- ===== src/Orchestrator/Session/Forced.antt =====
-- Diffs of the file with the desired configuration that are forced while it is watched.
use car_integrated_service_m.Prelude.{
  Bytes, text_eq_refl, text_eq_iff, true, false, [], ◌∷◌, ◌++◌, some, ◌≡◌, ◌≢◌, arith,
}
use car_integrated_service_m.Container.Manager.{Manager}
use car_integrated_service_m.Container.Reference.{ParseNormalized}
use car_integrated_service_m.Config.Settings.{Config}
use car_integrated_service_m.Config.Deployment.{DeploymentConfig, deployment_config_from_json}
use car_integrated_service_m.Registry.Node.{state_type_desired}
use car_integrated_service_m.Watcher
use car_integrated_service_m.Watcher.{FileWatcher, idle, handling, finish_event, handle_event}
use car_integrated_service_m.Orchestrator.Session.{Codec, apply, handle_file_diff}

module _ (mgr : Manager) (parse : ParseNormalized) (cfg : Config) (codec : Codec) where
  -- A diff that is forced while the watcher waits for an event is handled as a change from nothing:
  -- a configuration that can be decoded is sent and applied, whether the file has changed or not.
  pub diff_forced :
      (c : FileWatcher) (content : Bytes) (dplm_cfg : DeploymentConfig) (w : mgr.World)
      → c.phase ≡ idle
      → c.has_handler ≡ true
      → content ≢ []
      → codec.unmarshal content ≡ (dplm_cfg, false)
      → ((handle_event true (some content) (Watcher.diff true c)).calls
          ≡ c.calls ++ ([], content) ∷ [])
        × (handle_file_diff mgr parse cfg codec w [] content ≡ (
          record { json = content; state_type = state_type_desired } ∷ [],
          apply mgr parse cfg codec w dplm_cfg,
        ))
  unfolding handle_event Watcher.diff handle_file_diff deployment_config_from_json
  diff_forced c content dplm_cfg w waits handled some_content decoded =
      ground (arith, decoded, text_eq_iff [] content)

  -- A diff that is forced while the watcher still handles an event is lost, if the file stays as it
  -- was read for that event: the watcher ends as if the diff had not been forced, and the handler is
  -- called with twice the same content, for which it sends and applies nothing.
  pub diff_lost :
      (c : FileWatcher) (content : Bytes) (w : mgr.World)
      → c.phase ≡ handling content
      → c.has_handler ≡ true
      → (handle_event true (some content) (finish_event (Watcher.diff true c))
          ≡ handle_event true (some content) (finish_event c))
        × ((handle_event true (some content) (finish_event (Watcher.diff true c))).calls
            ≡ c.calls ++ (content, content) ∷ [])
        × (handle_file_diff mgr parse cfg codec w content content
            ≡ ([], record { world = w; calls = []; crashed = false }))
  unfolding handle_event Watcher.diff finish_event handle_file_diff
  diff_lost c content w works handled =
      (ground arith, ground arith, ground (arith, text_eq_refl content))
