-- ===== src/Controller/ClusterConfigReconciler/Steps.antt =====
-- The calls of the parts that both directions share.
use k4all_operator.Base.{String, ◌<>◌, Option, none, some, ◌==◌}
use k4all_operator.Base.Effect.{is_not_found}
use k4all_operator.Base.Keeps.{
  Keeps, Keeps-pure, Keeps-fail, Keeps-bind, Keeps-handle, Keeps-if, Keeps-lift, Keeps-wrapping,
}
use k4all_operator.Base.Dict.{text_at}
use k4all_operator.Config.Files.{
  parse_config_file, read_config_and_update_k8s, write_cluster_config_to_file,
}
use k4all_operator.Controller.Annotations.{Outcome}
use k4all_operator.Controller.ClusterConfigReconciler.{
  Reconciler, ensure_operator_namespace, sync_config_map,
}
use k4all_operator.Controller.ConfigSyncer.{made, Syncer, refresh, store_copy, sync_config}
use k4all_operator.Config.Types.{Config}
use k4all_operator.V1alpha1.{ClusterConfig}
use k4all_operator.World.{Env}
use k4all_operator.World.Emits.{
  Origin, Since, perform-Since, get_config_map-Since, get_namespace-Since, read_file-Since,
}
use k4all_operator.World.Objects.{NamespacedName, Kind, Namespace, ConfigMap}
use k4all_operator.World.Requests.{
  Request, read_file, get_object, create_object, update_object, mkdir_all, write_file, rename_file,
}

module _ (E : Env) (P : Request E.Unstructured → Type 0)
    (can_read : (path : String) → P (read_file path))
    (can_get : (k : Kind) (n : NamespacedName) → P (get_object k n))
    (can_create_config_map : (cm : ConfigMap) → P (create_object Kind.config_map cm))
    (can_update_config_map : (cm : ConfigMap) → P (update_object Kind.config_map cm))
    (old : Origin E P) where
  parse_config_file-Since :
      (path : String) → Keeps {A = Config} (Since P old) (parse_config_file E path)
  unfolding parse_config_file
  parse_config_file-Since path =
      Keeps-bind _ _ (Keeps-wrapping _ _ (read_file-Since E P old path (can_read path)))
        λ content. Keeps-wrapping _ _ (Keeps-lift (E.unmarshal content))

  pub read_config-Since :
      (path : String) (cc : ClusterConfig)
      → Keeps {A = ClusterConfig} (Since P old) (read_config_and_update_k8s E path cc)
  unfolding read_config_and_update_k8s
  read_config-Since path cc =
      Keeps-bind _ _ (parse_config_file-Since path)
        λ config. Keeps-bind _ _ (Keeps-lift _) λ spec. Keeps-pure _

  pub sync_config-Since : (syncer : Syncer) → Keeps (Since P old) (sync_config E syncer)
  unfolding sync_config store_copy refresh
  sync_config-Since syncer = Keeps-bind _ _ (parse_config_file-Since syncer.config_path) λ config.
      Keeps-bind _ _ (Keeps-lift (E.marshal_indent config)) λ text.
        Keeps-handle _ _ _ (get_config_map-Since E P old _ (can_get _ _))
          (λ e.
            Keeps-if (is_not_found e) _ _
              (λ _.
                perform-Since E P old (create_object Kind.config_map _) (can_create_config_map _))
              (λ _. Keeps-fail e))
          (λ cm.
            Keeps-if (text_at "config.json" (made cm.entries) == text) _ _ (λ _. Keeps-pure tt)
              (λ _.
                perform-Since E P old (update_object Kind.config_map _) (can_update_config_map _)))

  pub sync_config_map-Since :
      (r : Reconciler) → Keeps {A = Outcome} (Since P old) (sync_config_map E r)
  unfolding sync_config_map
  sync_config_map-Since r = from r.config_syncer
    where
      from :
          (o : Option Syncer)
          → Keeps {A = Outcome} (Since P old) (sync_config_map E (record r { config_syncer = o }))
      from none = Keeps-pure _
      from (some syncer) =
          Keeps-handle _ _ _ (sync_config-Since syncer) (λ e. Keeps-pure _) (λ _. Keeps-pure _)

module _ (E : Env) (P : Request E.Unstructured → Type 0) (old : Origin E P) where
  pub namespace-Since :
      (can_get : (n : NamespacedName) → P (get_object Kind.namespace_ n))
      (can_create : (ns : Namespace) → P (create_object Kind.namespace_ ns)) (r : Reconciler)
      → Keeps (Since P old) (ensure_operator_namespace E r)
  unfolding ensure_operator_namespace
  namespace-Since can_get can_create r =
      Keeps-handle _ _ _ (get_namespace-Since E P old _ (can_get _))
        (λ e.
          Keeps-if (is_not_found e) _ _
            (λ _.
              Keeps-wrapping _ _
                (perform-Since E P old (create_object Kind.namespace_ _) (can_create _)))
            (λ _. Keeps-fail _))
        (λ ns. Keeps-pure tt)

  pub write-Since :
      (cc : ClusterConfig) (path : String) (can_make : (d : String) → P (mkdir_all d))
      (can_write : (text : String) → P (write_file (path <> ".tmp") text))
      → P (rename_file (path <> ".tmp") path)
      → Keeps (Since P old) (write_cluster_config_to_file E cc path)
  unfolding write_cluster_config_to_file
  write-Since cc path can_make can_write can_rename =
      Keeps-bind _ _ (Keeps-wrapping _ _ (Keeps-lift _)) λ text.
        Keeps-bind _ _ (Keeps-wrapping _ _ (perform-Since E P old (mkdir_all _) (can_make _))) λ _.
          Keeps-bind _ _
            (Keeps-wrapping _ _ (perform-Since E P old (write_file _ text) (can_write text)))
            λ _.
              Keeps-bind _ _
                (Keeps-wrapping _ _ (perform-Since E P old (rename_file _ _) can_rename))
                (λ _. Keeps-pure tt)
