-- ===== src/Argocd/Outcomes.antt =====
-- What a reconciliation of Argo CD has done when it ends without an error and wants no retry.
pub mod Installed
pub mod Removed
use k4all_operator.Argocd.Reconcile.{
  argocd_values_key, helm_command, store, after_install, install, ensure_installed, after_uninstall,
  ensure_removed, set_argocd_values, version_or_default, apply_config,
}
use k4all_operator.Argocd.Types.{
  ArgocdReconciler, Callbacks, Reconciled, status_args, install_args, uninstall_args,
}
use k4all_operator.Base.{
  String, ◌==◌, ◌≡◌, ◌≢◌, sym, subst, ◌⊎◌, inl, inr, Bool, List, Option, none, some, Option-cases,
  true, false, arith,
}
use k4all_operator.Base.Dict.{Dict}
use k4all_operator.Base.Effect.{Error, Result, ok, Result-cases, handle, ◌>>=◌}
use k4all_operator.Base.Int.{ℤ}
use k4all_operator.Base.Triple.{bind-ok}
use k4all_operator.Config.Types.{Config}
use k4all_operator.Controller.Annotations.{finished}
use k4all_operator.Controller.Values.{save_values}
use k4all_operator.JobRunner.Commands.{Buffers, Ran, helm_config, run_helm_command}
use k4all_operator.JobRunner.Commands.Ended.{HelmRun, run_helm_command-HelmRun}
use k4all_operator.JobRunner.Commands.HostInfo.{HostInfo, argocd_host_info}
use k4all_operator.JobRunner.Run.{with_defaults}
use k4all_operator.World.{Env, Program, Json, Values, perform}
use k4all_operator.World.Objects.{NamespacedName, Kind}
use k4all_operator.World.Polling.{IsPolling}
use k4all_operator.World.Requests.{Sys, delete_object}

module _ (E : Env) (r : ArgocdReconciler) where
  -- From the first state to the last, the job of the helm command with these arguments was run and
  -- seen complete, with no output on stderr.
  abbrev pub Succeeded :
      List String → Sys E.State E.Unstructured → Sys E.State E.Unstructured → Type 0
  Succeeded args first last =
      (callbacks : Callbacks) × (output : String) × HelmRun E r.config_map_ns r.tools_image args
        callbacks output first last

  -- from the first state to the last, the values were saved without an error
  abbrev pub Saved : Values → Sys E.State E.Unstructured → Sys E.State E.Unstructured → Type 0
  Saved values first last = save_values E (argocd_values_key E r) values first ≡ (ok tt, last)

  -- the reconciliation ended in this state without an error, and wants no retry
  abbrev pub EndsIn : Program E Reconciled → Sys E.State E.Unstructured → Type 0
  EndsIn m s = (rec : Reconciled) × ((m s).0 ≡ ok rec) × (rec.outcome ≡ finished)

  pub Saved-same :
      (values : Values) (first : Sys E.State E.Unstructured)
      (t u : Result Reconciled × Sys E.State E.Unstructured)
      → t ≡ u
      → Saved values first u.1
      → Saved values first t.1
  Saved-same values first t u same = subst (λ v. Saved values first v.1) (sym same)

  pub store-Saved :
      (values : Values) (callbacks : Callbacks) (s : Sys E.State E.Unstructured)
      → EndsIn (store E r values callbacks) s
      → Saved values s (store E r values callbacks s).1
  unfolding store handle
  store-Saved values callbacks s (rec, done, fine) =
      let saved = save_values E (argocd_values_key E r) values s in
      elim (Result-cases saved.0) [
        | inl (_, got) ↦
            let ends : saved.1 ≡ (store E r values callbacks s).1 = ground (arith, got) in
            λ i. (got i, ends i)
        | inr (inl (e, got)) ↦ ground (arith, got, done, fine)
        | inr (inr (m, got)) ↦ ground (arith, got, done)
      ]

  -- from the first state to the last, helm was asked with these arguments, and the command returned
  -- an error
  abbrev pub Refused :
      List String → Sys E.State E.Unstructured → Sys E.State E.Unstructured → Type 0
  Refused args first last =
      (callbacks : Callbacks) × (ran : Ran) × (helm_command E r args callbacks first
        ≡ (ok ran, last))
      × (ran.error ≢ none)

  -- from the first state to the last, the release's namespace was deleted without an error
  abbrev pub NamespaceDeleted : Sys E.State E.Unstructured → Sys E.State E.Unstructured → Type 0
  NamespaceDeleted first last =
      perform E
        (delete_object Kind.namespace_ (record { name = r.helm_release_ns; namespace_ = "" })) first
      ≡ (ok tt, last)

  pub helm_command-Succeeded :
      (W : IsPolling E) (args : List String) (callbacks : Callbacks) (ran : Ran)
      (s : Sys E.State E.Unstructured)
      → (helm_command E r args callbacks s).0 ≡ ok ran
      → ran.error ≡ none
      → Succeeded args s (helm_command E r args callbacks s).1
  unfolding helm_command
  helm_command-Succeeded W args callbacks ran s done quiet = (
    callbacks,
    ran.output,
    run_helm_command-HelmRun E W r.config_map_ns r.tools_image args callbacks ran s done quiet,
  )

module _ (config : Config) where
  abbrev pub version : String
  version = version_or_default config.features.argocd.version

  -- the values that a reconciliation saves
  abbrev pub updated : Dict Json → Bool → Values
  updated values enabled = some (set_argocd_values enabled true version values)
