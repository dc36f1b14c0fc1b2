-- ===== src/Controller/FileToCluster/Writes.antt =====
-- What `SyncClusterConfig` writes, and when it writes nothing.
use k4all_operator.Config.Convert.{convert_to_cluster_config_spec}
use k4all_operator.Base.{eq_iff, String, true, false, Option, none, some, ◌≡◌, ◌≢◌, arith, nat_eq}
use k4all_operator.Base.Dict.{Dict}
use k4all_operator.Base.Decimal.{format_int}
use k4all_operator.Base.Effect.{Error, ok, handle, ◌>>=◌, wrapping}
use k4all_operator.Base.Int.{ltb_ℤ}
use k4all_operator.Base.Keeps.{Keeps, keeps_rules, Keeps-bind, Keeps-if, Keeps-pure, Keeps-handle}
use k4all_operator.Config.Types.{Config}
use k4all_operator.Config.Files.{parse_config_file}
use k4all_operator.Controller.Annotations.{
  file_sync_annotation, annotation, annotation-track, track, last_update_test, cluster_config_name,
}
use k4all_operator.Controller.FileToCluster.{
  deref, sync_features, update_existing, create_missing, desired_of, sync_parsed,
  sync_cluster_config, is_empty_config_file,
}
use k4all_operator.V1alpha1.{ClusterConfig, ClusterConfigSpec}
use k4all_operator.World.{Env, perform, unix_now}
use k4all_operator.World.Emits.{Since, Emits, unix_now-Since, since_rules, Since-Emits, Origin}
use k4all_operator.World.Objects.{Kind}
use k4all_operator.World.Requests.{
  Request, Sys, FileInfo, get_object, create_object, update_object, stat_file, read_file,
}

-- Reads of the file and of resources, and writes of `ClusterConfig` resources that are marked as
-- coming from the file.
abbrev pub MarksFileSync : {U : Type 0} → Request U → Type 0
MarksFileSync (create_object Kind.cluster_config cc) =
    annotation file_sync_annotation cc.annotations ≡ some "true"
MarksFileSync (update_object Kind.cluster_config cc) =
    annotation file_sync_annotation cc.annotations ≡ some "true"
MarksFileSync (get_object _ _) = Unit
MarksFileSync (stat_file _) = Unit
MarksFileSync (read_file _) = Unit
MarksFileSync _ = ⊥

marked :
    (now : String) (a : Option (Dict String))
    → annotation file_sync_annotation (some (track "true" now a)) ≡ some "true"
marked now a = rw annotation-track

module _ (E : Env) (old : Origin E MarksFileSync) where
  abbrev Marks : Sys E.State E.Unstructured → Type 0
  Marks = Since MarksFileSync old

  parse-Marks : (path : String) → Keeps Marks (parse_config_file E path)
  unfolding parse_config_file
  parse-Marks path = search (keeps_rules, since_rules)

  deref-Marks : (spec : Option ClusterConfigSpec) → Keeps Marks (deref E spec)
  unfolding deref
  deref-Marks none = search keeps_rules
  deref-Marks (some spec) = search keeps_rules

  update_existing-Marks :
      (info : FileInfo) (now : String) (desired existing : ClusterConfig)
      → Keeps Marks (update_existing E info now desired existing)
  unfolding update_existing sync_features
  update_existing-Marks info now desired existing =
      search (keeps_rules, since_rules, marked) depth 8

  create_missing-Marks :
      (desired : ClusterConfig)
      → annotation file_sync_annotation desired.annotations ≡ some "true"
      → (e : Error) → Keeps Marks (create_missing E desired e)
  unfolding create_missing wrapping
  create_missing-Marks desired is_marked e = search (keeps_rules, since_rules) depth 8

  sync_parsed-Marks : (info : FileInfo) (cfg : Config) → Keeps Marks (sync_parsed E info cfg)
  unfolding sync_parsed
  sync_parsed-Marks info cfg =
      Keeps-if (is_empty_config_file (some cfg)) _ _ (λ _. Keeps-pure tt)
        λ _. Keeps-bind _ _ (unix_now-Since E MarksFileSync old) λ time.
          Keeps-bind _ _ (deref-Marks _) λ spec.
            Keeps-handle _ _ _ (search since_rules)
              (create_missing-Marks (desired_of (format_int time) spec)
                (marked (format_int time) none))
              (update_existing-Marks info (format_int time) (desired_of (format_int time) spec))

  sync_cluster_config-Marks : (path : String) → Keeps Marks (sync_cluster_config E path)
  unfolding sync_cluster_config
  sync_cluster_config-Marks path =
      search (keeps_rules, since_rules, parse-Marks, sync_parsed-Marks) depth 9

-- Whatever the world answers, the synchronisation from the file calls nothing but reads and the
-- creation or the update of a `ClusterConfig` that carries the annotation of a file sync.
pub sync_cluster_config_writes :
    (E : Env) (path : String) → Emits E MarksFileSync (sync_cluster_config E path)
sync_cluster_config_writes E path =
    Since-Emits E MarksFileSync _ (λ old. sync_cluster_config-Marks E old path)

-- If the resource in the cluster carries a time of its last update that is later than the file's
-- modification time, the synchronisation returns nil and stops after reading the resource.
pub sync_cluster_config_newer :
    (E : Env) (path : String) (s : Sys E.State E.Unstructured) (info : FileInfo) (cfg : Config)
    (existing : ClusterConfig)
    → (perform E (stat_file path) s).0 ≡ ok info
    → nat_eq info.size 0 ≡ false
    → let s1 = (perform E (stat_file path) s).1 in
      (parse_config_file E path s1).0 ≡ ok cfg
      → cfg.version ≢ ""
      → let s2 = (unix_now E (parse_config_file E path s1).1).1 in
        (perform E (get_object Kind.cluster_config cluster_config_name) s2).0 ≡ ok existing
        → last_update_test (λ time. ltb_ℤ info.mod_time time) existing.annotations ≡ true
        → sync_cluster_config E path s
          ≡ (ok tt, (perform E (get_object Kind.cluster_config cluster_config_name) s2).1)
unfolding sync_cluster_config handle ◌>>=◌ wrapping convert_to_cluster_config_spec unix_now
sync_cluster_config_newer E path s info cfg existing stat nonempty parsed version got newer =
    ground (arith, eq_iff cfg.version "")
