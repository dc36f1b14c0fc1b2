-- ===== src/Controller/FileToCluster.antt =====
-- clusterconfig_sync.go and feature_manager.go: from the configuration file to the resource.
pub mod Writes
use k4all_operator.Base.{
  ℕ, String, Bool, true, false, Option, none, some, [], ◌==◌, if◌then◌else◌, nat_eq,
}
use k4all_operator.Base.Decimal.{format_int}
use k4all_operator.Base.Effect.{
  Error, wrap, is_not_found, is_not_exist, pure, fail, crash, handle, ◌>>=◌, ◌>>◌, wrapping,
}
use k4all_operator.Base.Int.{ℤ, ltb_ℤ}
use k4all_operator.Config.Types.{Config}
use k4all_operator.Config.Convert.{convert_to_cluster_config_spec}
use k4all_operator.Config.Files.{parse_config_file}
use k4all_operator.Controller.Annotations.{cluster_config_name, track, last_update_test}
use k4all_operator.V1alpha1.{ClusterConfig, ClusterConfigSpec}
use k4all_operator.World.{Env, Program, perform, unix_now}
use k4all_operator.World.Objects.{Kind}
use k4all_operator.World.Requests.{FileInfo, get_object, create_object, update_object, stat_file}

unfoldable pub is_empty_config_file : Option Config → Bool
is_empty_config_file none = true
is_empty_config_file (some c) = c.version == ""

-- The resource that the file asks for.
abbrev pub desired_of : String → ClusterConfigSpec → ClusterConfig
desired_of now spec = record {
  name = cluster_config_name.name;
  namespace_ = cluster_config_name.namespace_;
  annotations = some (track "true" now none);
  spec = spec;
}

module _ (E : Env) where
  -- *p, which panics at nil
  deref : Option ClusterConfigSpec → Program E ClusterConfigSpec
  deref none = crash "nil pointer dereference"
  deref (some spec) = pure spec

  -- FeatureManager.SyncFeatures, which leaves the work to the feature controllers
  unfoldable pub sync_features : ClusterConfig → Program E Unit
  sync_features cluster_config = pure tt

  -- The update of a resource that exists, unless it is newer than the file.
  update_existing : FileInfo → String → ClusterConfig → ClusterConfig → Program E Unit
  unfolding sync_features
  update_existing file_info now desired existing =
      if last_update_test (λ time. ltb_ℤ file_info.mod_time time) existing.annotations
      then pure tt
      else do
        let updated = record existing {
          spec = desired.spec;
          annotations = some (track "true" now existing.annotations);
        }
        wrapping "failed to update ClusterConfig"
            (perform E (update_object Kind.cluster_config updated))
        wrapping "failed to sync features" (sync_features desired)

  -- The creation of a resource that does not exist.
  create_missing : ClusterConfig → Error → Program E Unit
  create_missing desired e =
      if is_not_found e
      then wrapping "failed to create ClusterConfig"
          (perform E (create_object Kind.cluster_config desired))
      else fail (wrap "failed to get ClusterConfig" e)

  -- From the parsed file on.
  sync_parsed : FileInfo → Config → Program E Unit
  unfolding deref create_missing update_existing
  sync_parsed file_info cfg = if is_empty_config_file (some cfg) then pure tt else do
    time ← unix_now E
    let now = format_int time
    spec ← deref (convert_to_cluster_config_spec (some cfg))
    let desired = desired_of now spec
    handle (perform E (get_object Kind.cluster_config cluster_config_name)) (create_missing desired)
        (update_existing file_info now desired)

  unfoldable pub sync_cluster_config : String → Program E Unit
  unfolding sync_parsed is_empty_config_file
  sync_cluster_config path =
      handle (perform E (stat_file path))
        (λ e. if is_not_exist e then pure tt else fail (wrap "error checking config file" e))
        (λ file_info. if nat_eq file_info.size 0 then pure tt else do
          cfg ← wrapping "unable to parse configuration file" (parse_config_file E path)
          sync_parsed file_info cfg)
