-- ===== src/Tests/System.antt =====
-- Runs of the parts together, and of the set-up.
use k4all_operator.Argocd.Reconcile.{argocd_values_key, ended, reconcile_config, reconcile_argocd}
use k4all_operator.Base.{ℕ, suc, ◌≡◌, refl, ◌⊎◌, String, none, some, [], ◌∷◌}
use k4all_operator.Base.Dict.{insert, lookup, text_at}
use k4all_operator.Base.Effect.{Result, ok, err, other, not_found, handle, ignore, ◌>>=◌, wrapping}
use k4all_operator.Config.Files.{write_cluster_config_to_file, parse_config_file}
use k4all_operator.Config.Writer.{map_from_cluster_config}
use k4all_operator.Controller.Annotations.{annotation, finished}
use k4all_operator.Controller.ClusterConfigReconciler.{
  sync_from_file, reconcile, setup_with_manager,
}
use k4all_operator.Controller.ConfigSyncer.{sync_config, store_copy, refresh}
use k4all_operator.Main.{
  host_config_file_path, config_syncer, default_flags, cluster_config_reconciler, argocd_reconciler,
  virt_reconciler, ManagerCall, add_syncer, returned, exited, main,
}
use k4all_operator.Main.Started.{setup_steps, Performed, StopsAt, main-Performed-or-StopsAt}
use k4all_operator.Controller.ClusterConfigReconciler.Again.{OnlyFile, reconcile_again}
use k4all_operator.World.Emits.{Emitted}
use k4all_operator.Controller.EventFilter.{deleted, passes}
use k4all_operator.System.Filter.{OnlyReads, dropped-OnlyReads}
use k4all_operator.Controller.ClusterConfigReconciler.Whole.{IsKnown}
use k4all_operator.System.Steps.{reconciles, virt_reconciles, started, stepped, Reachable-IsKnown}
use k4all_operator.System.Apart.{Left, features_apart}
use k4all_operator.System.Follow.{shared_key, registered, features_follow}
use k4all_operator.Tests.Memory.{Memory, Doc, memory, answer}
use k4all_operator.Tests.Memory.Laws.{polling, codec, file_system, config_map_store, apart}
use k4all_operator.Tests.Memory.Quiet.{separate, host}
use k4all_operator.Tests.Samples.{some_values, start, resource, config_map}
use k4all_operator.V1alpha1.{ClusterConfig}
use k4all_operator.Virt.Reconcile
use k4all_operator.Virt.Reconcile.{with_config, virt_values_key, save_virt_values}
use k4all_operator.World.{perform}
use k4all_operator.World.Objects.{NamespacedName, Kind}
use k4all_operator.World.Requests.{Sys, get_object}

-- A manager that counts its calls and refuses the syncer.
abbrev attempt : ManagerCall → ℕ → Result (Unit {0}) × ℕ
attempt (add_syncer s) n = (err (other "refused"), suc n)
attempt _ n = (ok tt, suc n)

main-Performed-or-StopsAt_example :
    ((exited "unable to set up config syncer" ≡ returned)
      × Performed attempt (setup_steps default_flags) 0 5)
    ⊎ ((message : String) × (exited "unable to set up config syncer" ≡ exited message)
        × StopsAt attempt (setup_steps default_flags) message 0 5)
unfolding main handle
main-Performed-or-StopsAt_example =
    main-Performed-or-StopsAt attempt default_flags (exited "unable to set up config syncer") 0 5
      refl

-- a resource that is to be written to the file
abbrev outgoing : ClusterConfig
outgoing = record resource { annotations = some (("k4all.magesgate.com/file-sync", "false") ∷ []) }

abbrev before : Sys Memory Doc
before = record start { state = record start.state { cluster_config = some outgoing } }

abbrev request : NamespacedName
request = record { name = "k4all-cluster-config"; namespace_ = "k4all-operator-system" }

abbrev after : Sys Memory Doc
after = (reconcile memory (registered default_flags) request before).1

features_follow_example :
    (reconcile_argocd memory (argocd_reconciler default_flags) [] shared_key after
      ≡ reconcile_config memory
          (argocd_reconciler default_flags)
          []
          (map_from_cluster_config outgoing.spec)
          (perform memory (get_object Kind.config_map shared_key) after).1)
    × (Reconcile.reconcile memory (virt_reconciler default_flags) 9 9 shared_key after
        ≡ with_config memory
            (virt_reconciler default_flags)
            9
            9
            (map_from_cluster_config outgoing.spec)
            (perform memory (get_object Kind.config_map shared_key) after).1)
unfolding setup_with_manager cluster_config_reconciler reconcile sync_from_file annotation lookup
    write_cluster_config_to_file sync_config store_copy refresh parse_config_file text_at insert
    map_from_cluster_config config_map_store perform answer handle ignore ◌>>=◌ wrapping
features_follow_example =
    features_follow memory file_system codec config_map_store apart default_flags request outgoing
      before after config_map [] 9 9 refl refl tt refl refl tt refl

reconcile_again_example :
    Emitted
      (OnlyFile "/host/etc/k4all-config.json")
      after.trace
      (reconcile memory (registered default_flags) request after).1.trace
unfolding setup_with_manager cluster_config_reconciler reconcile sync_from_file annotation lookup
    write_cluster_config_to_file sync_config store_copy refresh parse_config_file text_at insert
    map_from_cluster_config config_map_store perform answer handle ignore ◌>>=◌ wrapping
reconcile_again_example =
    reconcile_again memory file_system codec config_map_store apart separate
      (registered default_flags) config_syncer refl refl request outgoing before after refl refl tt
      refl refl tt refl

features_apart_example :
    (Left memory config_map_store separate default_flags shared_key before
        (reconcile_argocd memory (argocd_reconciler default_flags) [] shared_key before).1
      × Left memory config_map_store separate default_flags
          (virt_values_key memory (virt_reconciler default_flags))
          before
          (reconcile_argocd memory (argocd_reconciler default_flags) [] shared_key before).1)
    × (Left memory config_map_store separate default_flags shared_key before
          (save_virt_values memory (virt_reconciler default_flags) some_values before).1
        × Left memory config_map_store separate default_flags
            (argocd_values_key memory (argocd_reconciler default_flags))
            before
            (save_virt_values memory (virt_reconciler default_flags) some_values before).1)
features_apart_example =
    features_apart memory config_map_store separate default_flags polling [] shared_key some_values
      before

-- a world without any ConfigMap
abbrev emptied : Sys Memory Doc
emptied = record start { state = record start.state { config_maps = λ _. none } }

dropped-OnlyReads_example :
    OnlyReads memory
      (reconcile_argocd memory (argocd_reconciler default_flags) [] shared_key)
      (ended [])
      emptied
    × OnlyReads memory
        (Reconcile.reconcile memory (virt_reconciler default_flags) 9 9 shared_key)
        finished
        emptied
unfolding answer passes
dropped-OnlyReads_example =
    dropped-OnlyReads memory (argocd_reconciler default_flags) (virt_reconciler default_flags) 9 9
      deleted shared_key [] emptied refl refl (λ _. (not_found, refl, refl))

Reachable-IsKnown_example :
    IsKnown memory file_system host host_config_file_path
      (file_system.content before.state host_config_file_path)
      (Reconcile.reconcile memory (virt_reconciler default_flags) 9 9 shared_key after).1
Reachable-IsKnown_example =
    Reachable-IsKnown memory file_system default_flags host polling before _
      (stepped (stepped started (reconciles request)) (virt_reconciles 9 9 shared_key))
