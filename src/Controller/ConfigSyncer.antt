-- ===== src/Controller/ConfigSyncer.antt =====
-- feature_controller.go: the copy of the configuration file in a ConfigMap, and its periodic run.
pub mod Idempotent
pub mod Loop
use k4all_operator.Base.{String, Option, none, some, List, [], ◌∷◌, ◌==◌, if◌then◌else◌}
use k4all_operator.Base.Dict.{Dict, insert, text_at}
use k4all_operator.Base.Effect.{Error, is_not_found, pure, fail, lift, handle, ◌>>=◌, ◌>>◌, ignore}
use k4all_operator.Config.Files.{parse_config_file}
use k4all_operator.World.{Env, Program, perform}
use k4all_operator.World.Objects.{NamespacedName, ConfigMap, Kind}
use k4all_operator.World.Requests.{get_object, create_object, update_object}

-- K4allConfigSyncer; the client is the world, and the interval only sets the ticks' times.
pub record Syncer : Type 0 where
  pub config_path : String
  pub config_map_name : String
  pub config_map_ns : String

-- A map that may be nil, made if it is.
abbrev pub made : Option (Dict String) → Dict String
made none = []
made (some d) = d

-- What the loop of `Start` waits for.
pub data Wakeup : Type 0 where
  tick cancelled : Wakeup

module _ (E : Env) (syncer : Syncer) where
  abbrev pub config_map_key : NamespacedName
  config_map_key = record { name = syncer.config_map_name; namespace_ = syncer.config_map_ns }

  -- The update of the map's entry, if it has changed.
  unfoldable pub refresh : String → ConfigMap → Program E Unit
  refresh content cm =
      let entries = made cm.entries in
      if text_at "config.json" entries == content then pure tt else do
        perform E (
            update_object Kind.config_map
              (record cm { entries = some (insert "config.json" content entries) }))

  -- The part after the encoding: get or create the ConfigMap.
  unfoldable pub store_copy : String → Program E Unit
  unfolding refresh
  store_copy content =
      handle (perform E (get_object Kind.config_map config_map_key))
        (λ e.
          if is_not_found e
          then perform E (
              create_object Kind.config_map (record {
                name = syncer.config_map_name;
                namespace_ = syncer.config_map_ns;
                entries = some (("config.json", content) ∷ []);
              }))
          else fail e)
        (refresh content)

  unfoldable pub sync_config : Program E Unit
  unfolding store_copy
  sync_config = do
    file_config ← parse_config_file E syncer.config_path
    content ← lift (E.marshal_indent file_config)
    store_copy content

  -- The loop, over what wakes it; it is still running where the list ends.
  wait_loop : List Wakeup → Program E Unit
  wait_loop [] = pure tt
  wait_loop (Wakeup.cancelled ∷ later) = pure tt
  wait_loop (Wakeup.tick ∷ later) = let rest = wait_loop later in do ignore sync_config; rest

  unfoldable pub start : List Wakeup → Program E Unit
  unfolding wait_loop
  start wakeups = do ignore sync_config; wait_loop wakeups
