-- ===== src/Tests/Argocd.antt =====
-- Runs of the Argo CD reconciler.
use k4all_operator.Argocd.Calls.{Any, HelmCalls, reconcile_config-HelmCalls}
use k4all_operator.Argocd.Outcomes.{Succeeded, Refused, Saved, version, updated}
use k4all_operator.Argocd.Outcomes.Installed.{Upgraded, apply_config-Installed}
use k4all_operator.Argocd.Outcomes.Removed.{Removed, apply_config-Removed}
use k4all_operator.Argocd.Reconcile.{
  helm_command, store, ensure_installed, after_uninstall, ensure_removed, set_argocd_values,
  version_or_default, apply_config, reconcile_config,
}
use k4all_operator.Argocd.Types.{
  ArgocdReconciler, Callbacks, Reconciled, status_args, uninstall_args,
}
use k4all_operator.Base.{refl, ◌==◌, String, ◌⊎◌, some, true, false, []}
use k4all_operator.Base.Decimal.{format_int}
use k4all_operator.Base.Dict.{insert, lookup}
use k4all_operator.Base.Effect.{Result, ok, handle, ignore, ◌>>=◌}
use k4all_operator.Config.Types.{Config}
use k4all_operator.Config.Writer.{convert_to_config}
use k4all_operator.Controller.Annotations.{finished}
use k4all_operator.Controller.Values.{save_values, store_values}
use k4all_operator.JobRunner.Build.{build_job, join}
use k4all_operator.JobRunner.Commands.{helm_config, helm_result, run_helm_command}
use k4all_operator.JobRunner.Run.{
  command_of, with_defaults, invalid, register, delete_pods, clean_up, run_named, run_checked,
  run_job,
}
use k4all_operator.JobRunner.Wait.{
  first_looks, decide, is_complete, callback_of, collect_pod, collect, collect_logs,
  wait_for_job_completion,
}
use k4all_operator.Tests.Memory.{memory, answer}
use k4all_operator.Tests.Memory.Laws.{polling}
use k4all_operator.Tests.Samples.{start, spec}
use k4all_operator.World.{Env, perform, pause, unix_now}
use k4all_operator.World.Emits.{Emits}
use k4all_operator.World.Requests.{Sys}
use k4all_operator.World.Polling.{IsPolling}

abbrev reconciler : ArgocdReconciler
reconciler = record {
  config_map_name = "k4all-config";
  config_map_ns = "ns";
  values_config_map = "argocd-values";
  helm_repo_url = "https://example.org/charts";
  helm_chart_name = "argo-cd";
  helm_release_name = "argocd";
  helm_release_ns = "argocd";
  tools_image = "tools";
}

-- The world in memory, with one text for all values.
abbrev lenient : Env
lenient = record memory { marshal_values = λ values. ok "{}" }

lenient-IsPolling : IsPolling lenient
lenient-IsPolling = record { keeps = polling.keeps; met = polling.met }

-- The sample configuration, with these flags of the feature.
abbrev config_with : String → Config
config_with enabled = record (convert_to_config spec) {
  features = record (convert_to_config spec).features {
    argocd = record { enabled = enabled; managed = "true"; version = "" };
  };
}

abbrev callbacks_of : Result Reconciled → Callbacks
callbacks_of (ok rec) = rec.output_callbacks
callbacks_of _ = []

-- A run from the empty values.
abbrev run : String → Result Reconciled
run enabled = (apply_config lenient reconciler (config_with enabled) [] (some []) start).0

reconcile_config-HelmCalls_example :
    Emits lenient
      (HelmCalls Any reconciler ((config_with "false").features.argocd.enabled == "true"))
      (reconcile_config lenient reconciler [] (config_with "false"))
reconcile_config-HelmCalls_example =
    reconcile_config-HelmCalls lenient lenient-IsPolling reconciler [] (config_with "false")

apply_config-Removed_example :
    let last = (apply_config lenient reconciler (config_with "false") [] (some []) start).1 in
    (t : Sys lenient.State lenient.Unstructured) × (Refused lenient reconciler
        (status_args reconciler)
        start
        t
      ⊎ Removed lenient reconciler lenient-IsPolling start t)
    × Saved lenient reconciler (updated (config_with "false") [] false) t last
unfolding convert_to_config status_args uninstall_args helm_command store after_uninstall
    ensure_removed set_argocd_values version_or_default apply_config save_values store_values
    run_helm_command helm_config helm_result join insert with_defaults command_of invalid register
    delete_pods clean_up run_named run_checked run_job build_job first_looks decide is_complete
    callback_of collect_pod collect collect_logs wait_for_job_completion perform pause unix_now
    answer handle ignore ◌>>=◌ lookup format_int
apply_config-Removed_example =
    apply_config-Removed lenient reconciler lenient-IsPolling (config_with "false") [] [] start refl
      (record { outcome = finished; output_callbacks = callbacks_of (run "false") }, refl, refl)

apply_config-Installed_example :
    let last = (apply_config lenient reconciler (config_with "true") [] (some []) start).1 in
    (t : Sys lenient.State lenient.Unstructured) × (Succeeded lenient reconciler
        (status_args reconciler)
        start
        t
      ⊎ Upgraded lenient reconciler lenient-IsPolling (version (config_with "true")) start t)
    × Saved lenient reconciler (updated (config_with "true") [] true) t last
unfolding convert_to_config status_args helm_command store ensure_installed set_argocd_values
    version_or_default apply_config save_values store_values run_helm_command helm_config
    helm_result join insert with_defaults command_of invalid register delete_pods clean_up run_named
    run_checked run_job build_job first_looks decide is_complete callback_of collect_pod collect
    collect_logs wait_for_job_completion perform pause unix_now answer handle ignore ◌>>=◌ lookup
    format_int
apply_config-Installed_example =
    apply_config-Installed lenient reconciler lenient-IsPolling (config_with "true") [] [] start
      refl (record { outcome = finished; output_callbacks = callbacks_of (run "true") }, refl, refl)
