-- ===== src/Controller/ClusterConfigReconciler.antt =====
-- clusterconfig_controller.go: `ClusterConfigReconciler`.
pub mod Directions
pub mod Steps
pub mod Copied
pub mod Again
pub mod Whole
use k4all_operator.Base.{String, Bool, true, Option, none, some, ◌==◌, if◌then◌else◌, not}
use k4all_operator.Base.Decimal.{format_int}
use k4all_operator.Base.Effect.{wrap, is_not_found, pure, fail, handle, ◌>>=◌, wrapping}
use k4all_operator.Config.Files.{read_config_and_update_k8s, write_cluster_config_to_file}
use k4all_operator.Controller.Annotations.{
  file_sync_annotation, annotation, track, Outcome, finished, failing, ignore_not_found,
}
use k4all_operator.Controller.ConfigSyncer.{Syncer, sync_config}
use k4all_operator.V1alpha1.{ClusterConfig}
use k4all_operator.World.{Env, Program, perform, unix_now}
use k4all_operator.World.Objects.{NamespacedName, Kind}
use k4all_operator.World.Requests.{get_object, create_object, update_object}

pub record Reconciler : Type 0 where
  pub config_file_path : String
  pub tools_image : String
  pub config_syncer : Option Syncer

-- `val, ok := …; ok && val == "false"`
unfoldable pub sync_from_file : ClusterConfig → Bool
unfolding annotation
sync_from_file cc = elim (annotation file_sync_annotation cc.annotations) [
  | none ↦ true
  | some value ↦ not (value == "false")
]

-- The defaults that SetupWithManager fills in.
unfoldable pub setup_with_manager : Reconciler → Reconciler
setup_with_manager r =
    let path : String = "/host/etc/k4all-config.json" in
    record {
      config_file_path = path;
      tools_image =
          if r.tools_image == "" then "ghcr.io/gpillon/k4all-tools:latest" else r.tools_image;
      config_syncer = elim r.config_syncer [
        | none ↦ some (record {
          config_path = path;
          config_map_name = "k4all-config";
          config_map_ns = "k4all-operator-system";
        })
        | some syncer ↦ some syncer
      ];
    }

module _ (E : Env) (r : Reconciler) where
  pub ensure_operator_namespace : Program E Unit
  ensure_operator_namespace =
      handle
        (perform E
          (get_object Kind.namespace_ (record { name = "k4all-operator-system"; namespace_ = "" })))
        (λ e.
          if is_not_found e
          then wrapping "unable to create namespace k4all-operator-system" (
              perform E (create_object Kind.namespace_ (record { name = "k4all-operator-system" })))
          else fail (wrap "unable to check if namespace k4all-operator-system exists" e))
        (λ ns. pure tt)

  -- The last step, after either direction of the synchronisation.
  pub sync_config_map : Program E Outcome
  sync_config_map = elim r.config_syncer [
    | none ↦ pure finished
    | some syncer ↦ handle (sync_config E syncer) (λ e. pure (failing 0 e)) (λ _. pure finished)
  ]

  pub from_file : ClusterConfig → Program E Outcome
  unfolding sync_config_map
  from_file cluster_config =
      handle (read_config_and_update_k8s E r.config_file_path cluster_config)
        (λ e. pure (failing 60 e))
        λ updated. do
          time ← unix_now E
          let tracked = record updated {
            annotations = some (track "false" (format_int time) updated.annotations);
          }
          handle (perform E (update_object Kind.cluster_config tracked)) (λ e. pure (failing 0 e))
              (λ _. sync_config_map)

  pub to_file : ClusterConfig → Program E Outcome
  unfolding sync_config_map
  to_file cluster_config =
      handle (write_cluster_config_to_file E cluster_config r.config_file_path)
        (λ e. pure (failing 60 e)) (λ _. sync_config_map)

  -- From the resource read on.
  pub synchronize : ClusterConfig → Program E Outcome
  unfolding ensure_operator_namespace from_file to_file
  synchronize cluster_config =
      handle ensure_operator_namespace (λ e. pure (failing 0 e))
        λ _.
          if sync_from_file cluster_config then from_file cluster_config else to_file cluster_config

  unfoldable pub reconcile : NamespacedName → Program E Outcome
  unfolding synchronize ignore_not_found
  reconcile req =
      handle (perform E (get_object Kind.cluster_config req))
        (λ e. pure (record { requeue_after = 0; error = ignore_not_found e })) synchronize
