-- ===== src/Tests/Config.antt =====
-- Runs of the configuration's mappings and files.
use k4all_operator.Base.{◌≡◌, ◌≢◌, refl, some, String, ◌↔◌}
use k4all_operator.V1alpha1.{ClusterConfig}
use k4all_operator.Base.Effect.{ok, handle, ◌>>=◌, wrapping}
use k4all_operator.Config.Atomic.{
  write_cluster_config_to_file_written, write_cluster_config_to_file_unwritten,
}
use k4all_operator.Config.Convert.{convert_to_cluster_config_spec}
use k4all_operator.Config.Files.{write_cluster_config_to_file, read_config_and_update_k8s}
use k4all_operator.Config.Parser.{map_spec, map_to_cluster_config}
use k4all_operator.Config.Reload.{read-write}
use k4all_operator.Config.RoundTrip.{
  map_to-map_from, map_to-merge_configs, canonical, map_from-map_to, convert-map_from,
  zero_with_version,
}
use k4all_operator.Config.Writer.{map_from_cluster_config, merge_configs}
use k4all_operator.Base.Text.{is_true}
use k4all_operator.Tests.Memory.{memory, answer}
use k4all_operator.Tests.Memory.Encoding.{sample}
use k4all_operator.Tests.Memory.Laws.{file_system, codec}
use k4all_operator.Tests.Samples.{config_path, spec, resource, start, bare}
use k4all_operator.World.{perform}

map_to-map_from_example : map_to_cluster_config (some (map_from_cluster_config spec)) ≡ ok spec
map_to-map_from_example = map_to-map_from spec

map_to-merge_configs_example : map_to_cluster_config (some (merge_configs sample spec)) ≡ ok spec
map_to-merge_configs_example = map_to-merge_configs sample spec

map_from-map_to_example : map_from_cluster_config spec ≡ canonical sample
unfolding map_to_cluster_config map_spec is_true
map_from-map_to_example = map_from-map_to sample spec refl

read-write_example :
    (read_config_and_update_k8s memory config_path resource
      (write_cluster_config_to_file memory resource config_path bare).1).0
    ≡ ok resource
unfolding write_cluster_config_to_file handle ◌>>=◌ wrapping perform answer map_from_cluster_config
read-write_example = read-write memory config_path bare file_system codec resource resource refl

write_cluster_config_to_file_written_example :
    (text : String) × (memory.marshal_indent (map_from_cluster_config spec) ≡ ok text)
    × (file_system.content
          (write_cluster_config_to_file memory resource config_path bare).1.state
          config_path
        ≡ some text)
unfolding write_cluster_config_to_file handle ◌>>=◌ wrapping perform answer map_from_cluster_config
write_cluster_config_to_file_written_example =
    write_cluster_config_to_file_written memory file_system resource config_path bare refl

-- this one cannot be encoded
abbrev other_resource : ClusterConfig
other_resource = record resource { spec = record spec { version = "2" } }

is_unwritten : (write_cluster_config_to_file memory other_resource config_path start).0 ≢ ok tt
unfolding write_cluster_config_to_file handle ◌>>=◌ wrapping perform answer map_from_cluster_config
is_unwritten = λ h. cc

write_cluster_config_to_file_unwritten_example :
    file_system.content
      (write_cluster_config_to_file memory other_resource config_path start).1.state
      config_path
    ≡ file_system.content start.state config_path
write_cluster_config_to_file_unwritten_example =
    write_cluster_config_to_file_unwritten memory file_system other_resource config_path start
      is_unwritten

convert-map_from_example :
    (convert_to_cluster_config_spec (some (map_from_cluster_config spec)) ≡ some spec)
    ↔ (spec ≡ zero_with_version "1.0")
convert-map_from_example = convert-map_from spec
