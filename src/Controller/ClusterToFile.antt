-- ===== src/Controller/ClusterToFile.antt =====
-- clusterconfig_sync_bidirectional.go: from the resource to the configuration file.
pub mod Guards
use Prim.Native.Nat.{bit_and, bit_or}
use k4all_operator.Base.{
  Bool, true, false, String, Option, none, some, ◌==◌, ◌||◌, if◌then◌else◌, nat_eq, ltb,
}
use k4all_operator.Base.Effect.{wrap, is_not_exist, ok, Result, pure, fail, handle, ◌>>◌, wrapping}
use k4all_operator.Base.Int.{leb_ℤ}
use k4all_operator.Base.Text.{byte_length}
use k4all_operator.Config.Types.{Config}
use k4all_operator.Config.Writer.{convert_to_config}
use k4all_operator.Config.Files.{write_config_file}
use k4all_operator.Controller.Annotations.{last_update_test}
use k4all_operator.V1alpha1.{ClusterConfig, ClusterConfigSpec}
use k4all_operator.World.{Env, Program, perform}
use k4all_operator.World.Requests.{FileInfo, stat_file, chmod_file, mkdir_all}

unfoldable pub is_empty_k8s_config : ClusterConfigSpec → Bool
is_empty_k8s_config spec =
    if spec.version == "" || spec.networking.cni.type == "" || spec.networking.interface.dev == ""
    then true
    else false

module _ (E : Env) where
  -- err != nil || len(data) < 50
  is_short : Result String → Bool
  is_short (ok data_) = ltb (byte_length data_) 50
  is_short _ = true

  unfoldable pub is_empty_config_struct : Config → Bool
  unfolding is_short
  is_empty_config_struct cfg =
      if cfg.version == "" || cfg.networking.cni.type == "" || cfg.networking.interface.dev == ""
      then true
      else is_short (E.marshal cfg)

  -- Makes the file writable if it exists, or its directory if it does not.
  unfoldable pub prepare : String → Option FileInfo → Program E Unit
  prepare path none = do
    wrapping "failed to create directory for config file" (perform E (mkdir_all "/etc"))
    pure tt
  prepare path (some info) =
      if nat_eq (bit_and info.perm 0o200) 0
      then (do
        wrapping "failed to make config file writable"
            (perform E (chmod_file path (bit_or info.perm 0o200)))
        pure tt)
      else pure tt

  -- From the comparison of times on; `none` where the file does not exist.
  unfoldable pub write_out : ClusterConfig → String → Option FileInfo → Program E Unit
  unfolding prepare
  write_out cluster_config path info =
      let cfg = convert_to_config cluster_config.spec in
      if is_empty_config_struct cfg then pure tt else do
        prepare path info
        wrapping "failed to write config file" (write_config_file E path cfg)

  unfoldable pub sync_k8s_to_config_file : ClusterConfig → String → Program E Unit
  unfolding write_out is_empty_k8s_config is_empty_config_struct
  sync_k8s_to_config_file cluster_config path =
      if is_empty_k8s_config cluster_config.spec
      then pure tt
      else handle (perform E (stat_file path))
          (λ e.
            if is_not_exist e
            then write_out cluster_config path none
            else fail (wrap "failed to check config file" e))
          (λ info.
            if last_update_test (λ time. leb_ℤ time info.mod_time) cluster_config.annotations
            then pure tt
            else write_out cluster_config path (some info))
