-- ===== src/Tests/Controller.antt =====
-- Runs of the controllers.
use k4all_operator.Base.{◌≡◌, refl, some, [], ◌∷◌}
use k4all_operator.Base.Dict.{lookup, insert, text_at}
use k4all_operator.Base.Decimal.{parse_int}
use k4all_operator.Base.Effect.{handle, ◌>>=◌, wrapping}
use k4all_operator.Base.Int.{pos}
use k4all_operator.Base.Text.{byte_length, format_bool}
use k4all_operator.Config.Files.{parse_config_file, write_config_file}
use k4all_operator.Config.Writer.{convert_to_config}
use k4all_operator.Controller.ClusterConfigReconciler.{Reconciler, sync_from_file, reconcile}
use k4all_operator.Controller.ClusterConfigReconciler.Directions.{
  TakesFile, GivesFile, reconcile-TakesFile, reconcile-GivesFile,
}
use k4all_operator.Controller.ClusterToFile.{
  is_empty_k8s_config, is_empty_config_struct, prepare, write_out, sync_k8s_to_config_file,
}
use k4all_operator.Controller.ClusterToFile.Guards.{Holds, sync_k8s_to_config_file-Holds}
use k4all_operator.V1alpha1.{ClusterConfig}
use k4all_operator.Controller.Annotations.{annotation, last_update_test}
use k4all_operator.Controller.ConfigSyncer.{made, config_map_key, refresh, store_copy, sync_config}
use k4all_operator.Controller.ConfigSyncer.Idempotent.{sync_config_again, sync_config_copies}
use k4all_operator.Controller.FileToCluster.{sync_cluster_config}
use k4all_operator.Controller.FileToCluster.Writes.{MarksFileSync, sync_cluster_config_writes}
use k4all_operator.Controller.Values.{decode_values, get_values, store_values, save_values}
use k4all_operator.Controller.Values.RoundTrip.{get_values-save_values}
use k4all_operator.Tests.Memory.{memory, answer}
use k4all_operator.Tests.Memory.Encoding.{sample_text, sample}
use k4all_operator.Tests.Memory.Laws.{file_system, codec, config_map_store, apart}
use k4all_operator.Tests.Samples.{
  some_values, sorted_values, spec, config_path, resource, start, bare, syncer,
}
use k4all_operator.World.{perform}
use k4all_operator.World.Codec.{SameValues}
use k4all_operator.World.Emits.{Emits, Emitted, IsRead}
use k4all_operator.World.Objects.{NamespacedName, ConfigMap}
use k4all_operator.World.Requests.{FileInfo, Sys}

abbrev reconciler : Reconciler
reconciler = record {
  config_file_path = config_path;
  tools_image = "tools";
  config_syncer = some syncer;
}

abbrev resource_name : NamespacedName
resource_name = record { name = "k4all-cluster-config"; namespace_ = "k4all-operator-system" }

-- a resource that a reconciliation has handled
abbrev handled_resource : ClusterConfig
handled_resource = record resource {
  annotations = some (("k4all.magesgate.com/file-sync", "false") ∷ []);
}

abbrev handled_start : Sys memory.State memory.Unstructured
handled_start = record start {
  state = record start.state { cluster_config = some handled_resource };
}

reconcile-TakesFile_example :
    Emitted TakesFile start.trace (reconcile memory reconciler resource_name start).1.trace
unfolding sync_from_file annotation lookup perform answer
reconcile-TakesFile_example =
    reconcile-TakesFile memory reconciler resource_name start resource refl refl

reconcile-GivesFile_example :
    Emitted
      (GivesFile config_path)
      handled_start.trace
      (reconcile memory reconciler resource_name handled_start).1.trace
unfolding sync_from_file annotation lookup perform answer
reconcile-GivesFile_example =
    reconcile-GivesFile memory reconciler resource_name handled_start handled_resource refl refl

-- what the file's state says in this world
abbrev info : FileInfo
info = record { size = 1; mod_time = pos 7; perm = 420 }

sync_k8s_to_config_file-Holds_example :
    Holds memory resource config_path start file_system
      (convert_to_config spec)
      (sync_k8s_to_config_file memory resource config_path start).1
unfolding perform answer last_update_test parse_int lookup annotation is_empty_k8s_config
    format_bool is_empty_config_struct convert_to_config byte_length sync_k8s_to_config_file
    write_out prepare write_config_file handle ◌>>=◌ wrapping
sync_k8s_to_config_file-Holds_example =
    sync_k8s_to_config_file-Holds memory resource config_path start file_system info refl refl refl
      refl refl

sync_cluster_config_writes_example :
    Emits memory MarksFileSync (sync_cluster_config memory config_path)
sync_cluster_config_writes_example = sync_cluster_config_writes memory config_path

sync_config_again_example :
    Emitted IsRead
      (sync_config memory syncer start).1.trace
      (sync_config memory syncer (sync_config memory syncer start).1).1.trace
unfolding file_system config_map_store sync_config store_copy refresh perform answer
    parse_config_file handle ◌>>=◌ wrapping text_at lookup
sync_config_again_example =
    sync_config_again memory file_system config_map_store apart syncer sample_text sample_text
      sample refl refl start (sync_config memory syncer start).1 tt refl refl refl refl tt

sync_config_copies_example :
    (cm : ConfigMap) × (config_map_store.stored
        (sync_config memory syncer start).1.state
        (config_map_key memory syncer)
      ≡ some cm)
    × (text_at "config.json" (made cm.entries) ≡ sample_text)
unfolding file_system config_map_store sync_config store_copy refresh perform answer
    parse_config_file handle ◌>>=◌ wrapping text_at lookup
sync_config_copies_example =
    sync_config_copies memory file_system config_map_store apart syncer sample_text sample_text
      sample refl refl start tt refl refl

abbrev values_name : NamespacedName
values_name = record { name = "values"; namespace_ = "ns" }

get_values-save_values_example : SameValues sorted_values some_values
unfolding get_values save_values store_values decode_values perform answer handle ◌>>=◌ text_at
    lookup insert config_map_store
get_values-save_values_example =
    get_values-save_values memory codec config_map_store values_name some_values sorted_values bare
      (save_values memory values_name some_values bare).1 tt refl refl tt refl
