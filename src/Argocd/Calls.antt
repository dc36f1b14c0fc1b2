-- ===== src/Argocd/Calls.antt =====
-- What a reconciliation of Argo CD may call.
use k4all_operator.Argocd.Reconcile.{
  argocd_values_key, helm_command, store, after_install, install, ensure_installed, after_uninstall,
  ensure_removed, apply_config, reconcile_config,
}
use k4all_operator.Argocd.Types.{ArgocdReconciler, Callbacks}
use k4all_operator.Base.{
  String, ◌==◌, ◌≡◌, refl, sym, ap, ◌∙◌, List, [], ◌∷◌, none, some, Bool, false, not, if◌then◌else◌,
}
use k4all_operator.Base.Keeps.{
  Keeps, keeps_rules, Keeps-pure, Keeps-bind, Keeps-handle, Keeps-if, Keeps-crash, Keeps-option,
}
use k4all_operator.Config.Types.{Config}
use k4all_operator.Controller.Values.{get_values, decode_values, save_values, store_values}
use k4all_operator.JobRunner.Commands.{
  Ran, helm_config, host_config, run_helm_command, run_host_command,
}
use k4all_operator.JobRunner.Commands.HostInfo.{HostInfo, argocd_host_info}
use k4all_operator.JobRunner.Run.{run_job, with_defaults}
use k4all_operator.JobRunner.Run.OwnJob.{OwnJob, job_key, run_job-Since}
use k4all_operator.JobRunner.Types.{JobConfig, Shared}
use k4all_operator.World.{Env, Values}
use k4all_operator.World.Emits.{
  Since, Emits, Since-Emits, since_rules, perform-Since, unix_now-Since, Origin, Since-restart,
  restart, here,
}
use k4all_operator.World.Objects.{NamespacedName, ConfigMap, Kind}
use k4all_operator.World.Polling.{IsPolling}
use k4all_operator.World.Requests.{Request, Sys, delete_object}

-- The namespace of the jobs.
abbrev pub jobs_namespace : ArgocdReconciler → String
jobs_namespace r = if r.config_map_ns == "" then "k4all-operator-system" else r.config_map_ns

-- Reads, jobs in this namespace, deletions of pods and writes of ConfigMaps of this kind; and,
-- where the feature is not enabled, the deletion of the release's namespace.
abbrev pub HelmCalls :
    (ConfigMap → Type 0) → ArgocdReconciler → Bool → {U : Type 0} → Request U → Type 0
HelmCalls own r enabled (Request.get_object _ _) = Unit
HelmCalls own r enabled (Request.list_pods _ _) = Unit
HelmCalls own r enabled (Request.pod_logs _ _ _) = Unit
HelmCalls own r enabled (Request.create_object Kind.job o) = o.namespace_ ≡ jobs_namespace r
HelmCalls own r enabled (Request.create_object Kind.config_map cm) = own cm
HelmCalls own r enabled (Request.update_object Kind.config_map cm) = own cm
HelmCalls own r enabled (Request.delete_object Kind.job n) = n.namespace_ ≡ jobs_namespace r
HelmCalls own r enabled (Request.delete_object Kind.pod _) = Unit
HelmCalls own r enabled (Request.delete_object Kind.namespace_ n) =
    (enabled ≡ false) × (n ≡ (record { name = r.helm_release_ns; namespace_ = "" }))
HelmCalls own r enabled _ = ⊥

OwnJob-HelmCalls :
    {U : Type 0} (own : ConfigMap → Type 0) (r : ArgocdReconciler) (enabled : Bool)
    (key : NamespacedName)
    → key.namespace_ ≡ jobs_namespace r
    → (q : Request U) → OwnJob key q
    → HelmCalls own r enabled q
OwnJob-HelmCalls own r enabled key same (Request.get_object Kind.job n) h = tt
OwnJob-HelmCalls own r enabled key same (Request.list_pods _ _) h = tt
OwnJob-HelmCalls own r enabled key same (Request.pod_logs _ _ _) h = tt
OwnJob-HelmCalls own r enabled key same (Request.create_object Kind.job o) h = h.1 ∙ same
OwnJob-HelmCalls own r enabled key same (Request.delete_object Kind.job n) h =
    ap (λ (k : NamespacedName). k.namespace_) h ∙ same
OwnJob-HelmCalls own r enabled key same (Request.delete_object Kind.pod n) h = tt
OwnJob-HelmCalls own r enabled key same _ h = absurd h

-- A ConfigMap of any name.
abbrev pub Any : ConfigMap → Type 0
Any cm = Unit

pub store-Any :
    (E : Env) (r : ArgocdReconciler) (enabled : Bool) (old : Origin E (HelmCalls Any r enabled))
    (values : Values) (callbacks : Callbacks)
    → Keeps (Since (HelmCalls Any r enabled) old) (store E r values callbacks)
unfolding store save_values store_values
store-Any E r enabled old values callbacks = search (keeps_rules, since_rules) depth 12

-- Given that saving the values is allowed, all else is.
module _ (E : Env) (W : IsPolling E) (own : ConfigMap → Type 0) (r : ArgocdReconciler)
    (enabled : Bool) (old : Origin E (HelmCalls own r enabled))
    (store-Stays : (values : Values) (callbacks : Callbacks)
      → Keeps (Since (HelmCalls own r enabled) old) (store E r values callbacks)) where
  abbrev Stays : Sys E.State E.Unstructured → Type 0
  Stays = Since (HelmCalls own r enabled) old

  run_job-Stays :
      {B : Type 0} (c : JobConfig B) (shared : Shared B)
      → c.namespace_ ≡ r.config_map_ns
      → Keeps Stays (run_job E c shared)
  unfolding with_defaults
  run_job-Stays c shared same = record {
    at = λ s h.
        let fewer =
          OwnJob-HelmCalls own r enabled (job_key E c s)
            (ap (λ (n : String). if n == "" then "k4all-operator-system" else n) same) in
        Since-restart E (OwnJob (job_key E c s)) (HelmCalls own r enabled) fewer old s _ h (
          run_job-Since E W c shared s
            (restart E (OwnJob (job_key E c s)) (HelmCalls own r enabled) fewer old s.trace)
            (here, h.1));
  }

  pub helm_command-Stays :
      (args : List String) (callbacks : Callbacks) → Keeps Stays (helm_command E r args callbacks)
  unfolding helm_command run_helm_command helm_config
  helm_command-Stays [] callbacks = Keeps-pure _
  helm_command-Stays (arg ∷ args) callbacks =
      Keeps-bind _ _ (unix_now-Since E (HelmCalls own r enabled) old)
        λ time. Keeps-bind _ _ (run_job-Stays _ _ refl) λ done. Keeps-pure _

  host_command-Stays :
      (args : List String) (callbacks : Callbacks)
      → Keeps Stays (run_host_command E r.config_map_ns r.tools_image args callbacks)
  unfolding run_host_command host_config
  host_command-Stays [] callbacks = Keeps-pure _
  host_command-Stays (arg ∷ args) callbacks =
      Keeps-bind _ _ (unix_now-Since E (HelmCalls own r enabled) old)
        λ time. Keeps-bind _ _ (run_job-Stays _ _ refl) λ done. Keeps-pure _

  get_values-Stays : Keeps {A = Values} Stays (get_values E (argocd_values_key E r))
  unfolding get_values decode_values
  get_values-Stays = search (keeps_rules, since_rules) depth 9

  after_install-Stays : (values : Values) (ran : Ran) → Keeps Stays (after_install E r values ran)
  unfolding after_install
  after_install-Stays values ran =
      Keeps-option ran.error _ _ (store-Stays values ran.output_callbacks) λ e. Keeps-pure _

  install-Stays :
      (version : String) (values : Values) (info : HostInfo)
      → Keeps Stays (install E r version values info)
  unfolding install
  install-Stays version values info =
      Keeps-option info.error _ _
        (Keeps-bind _ _ (helm_command-Stays _ _) (after_install-Stays values)) λ e. Keeps-pure _

  pub host_info-Stays :
      (callbacks : Callbacks)
      → Keeps Stays (argocd_host_info E r.config_map_ns r.tools_image callbacks)
  unfolding argocd_host_info
  host_info-Stays callbacks = Keeps-bind _ _ (host_command-Stays _ _) λ ran. Keeps-pure _

  ensure_installed-Stays :
      (version : String) (values : Values) (status : Ran)
      → Keeps Stays (ensure_installed E r version values status)
  unfolding ensure_installed
  ensure_installed-Stays version values status =
      Keeps-option status.error _ _ (store-Stays values status.output_callbacks)
        λ e. Keeps-bind _ _ (host_info-Stays _) (install-Stays version values)

  after_uninstall-Stays :
      (values : Values) (ran : Ran) → enabled ≡ false → Keeps Stays (after_uninstall E r values ran)
  unfolding after_uninstall
  after_uninstall-Stays values ran disabled =
      Keeps-option ran.error _ _
        (Keeps-handle _ _ _
          (perform-Since E (HelmCalls own r enabled) old (delete_object Kind.namespace_ _)
            (disabled, refl))
          (λ e. Keeps-pure _) (λ _. store-Stays values ran.output_callbacks))
        λ e. Keeps-pure _

  ensure_removed-Stays :
      (values : Values) (status : Ran)
      → enabled ≡ false
      → Keeps Stays (ensure_removed E r values status)
  unfolding ensure_removed
  ensure_removed-Stays values status disabled =
      Keeps-option status.error _ _
        (Keeps-bind _ _ (helm_command-Stays _ _) λ ran. after_uninstall-Stays values ran disabled)
        λ e. store-Stays values status.output_callbacks

  apply_config-Stays :
      (config : Config) (callbacks : Callbacks)
      → (config.features.argocd.enabled == "true") ≡ enabled
      → (values : Values) → Keeps Stays (apply_config E r config callbacks values)
  unfolding apply_config
  apply_config-Stays config callbacks same none = Keeps-crash _
  apply_config-Stays config callbacks same (some values) =
      Keeps-bind _ _ (helm_command-Stays _ _) λ status.
        Keeps-if (config.features.argocd.enabled == "true") _ _
          (λ _. ensure_installed-Stays _ _ status)
          (λ disabled. ensure_removed-Stays _ status (sym same ∙ disabled))

  pub reconcile_config-Stays :
      (config : Config) (callbacks : Callbacks)
      → (config.features.argocd.enabled == "true") ≡ enabled
      → Keeps Stays (reconcile_config E r callbacks config)
  unfolding reconcile_config
  reconcile_config-Stays config callbacks same =
      Keeps-if (not (config.features.argocd.managed == "true")) _ _ (λ _. Keeps-pure _)
        λ _.
          Keeps-handle _ _ _ get_values-Stays (λ e. Keeps-pure _)
            (apply_config-Stays config callbacks same)

-- Whatever the world answers, a reconciliation of Argo CD from the parsed configuration on calls
-- nothing but reads, creations and deletions of jobs in the namespace of the operator's ConfigMap,
-- deletions of pods, and the creation or the update of a ConfigMap; and, only where the
-- configuration does not enable Argo CD, the deletion of the release's namespace.
pub reconcile_config-HelmCalls :
    (E : Env) (W : IsPolling E) (r : ArgocdReconciler) (callbacks : Callbacks) (config : Config)
    → Emits E
        (HelmCalls Any r (config.features.argocd.enabled == "true"))
        (reconcile_config E r callbacks config)
reconcile_config-HelmCalls E W r callbacks config =
    Since-Emits E (HelmCalls Any r (config.features.argocd.enabled == "true")) _ λ old.
      reconcile_config-Stays E W Any r (config.features.argocd.enabled == "true") old
        (store-Any E r (config.features.argocd.enabled == "true") old) config callbacks refl
