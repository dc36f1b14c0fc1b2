-- ===== src/Config/Files.antt =====
-- config_parser.go and config_writer.go: reading and writing the configuration file.
use k4all_operator.Base.{String, ◌<>◌, some, not, if◌then◌else◌}
use k4all_operator.Base.Effect.{is_not_exist, lift, fail, pure, handle, ◌>>=◌, ◌>>◌, wrapping}
use k4all_operator.Config.Types.{Config}
use k4all_operator.Config.Parser.{map_to_cluster_config}
use k4all_operator.Config.Writer.{map_from_cluster_config, merge_configs}
use k4all_operator.V1alpha1.{ClusterConfig}
use k4all_operator.World.{Env, Program, perform}
use k4all_operator.World.Requests.{Request}

module _ (E : Env) where
  unfoldable pub parse_config_file : String → Program E Config
  parse_config_file path = do
    content ← wrapping "failed to read config file" (perform E (Request.read_file path))
    wrapping "failed to parse JSON config" (lift (E.unmarshal content))

  unfoldable pub write_config_file : String → Config → Program E Unit
  write_config_file path config = do
    text ← wrapping "error marshalling config" (lift (E.marshal_indent config))
    wrapping "error writing config file" (perform E (Request.write_file path text))
    pure tt

  unfoldable pub write_cluster_config_to_file : ClusterConfig → String → Program E Unit
  write_cluster_config_to_file cluster_config path = do
    let config = map_from_cluster_config cluster_config.spec
    text ← wrapping "failed to marshal config to JSON" (lift (E.marshal_indent config))
    wrapping "failed to create directory for config file"
        (perform E (Request.mkdir_all (E.dir path)))
    let temp_file = path <> ".tmp"
    wrapping "failed to write to temporary config file"
        (perform E (Request.write_file temp_file text))
    wrapping "failed to replace config file" (perform E (Request.rename_file temp_file path))
    pure tt

  -- The object that the source changes in place is the value returned.
  unfoldable pub read_config_and_update_k8s : String → ClusterConfig → Program E ClusterConfig
  read_config_and_update_k8s path k8s_config = do
    config ← parse_config_file path
    spec ← lift (map_to_cluster_config (some config))
    pure (record k8s_config { spec = spec })

  unfoldable pub merge_and_write_config : String → ClusterConfig → Program E Unit
  merge_and_write_config path k8s_config =
      handle (parse_config_file path)
        (λ e. if not (is_not_exist e) then fail e else write_cluster_config_to_file k8s_config path)
        λ existing. do
          let merged = merge_configs existing k8s_config.spec
          spec ← lift (map_to_cluster_config (some merged))
          write_cluster_config_to_file (record k8s_config { spec = spec }) path
