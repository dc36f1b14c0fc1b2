-- ===== src/Argocd/Reconcile.antt =====
-- ArgocdReconciler.Reconcile. The global map of callbacks is passed along, since the helm commands
-- register theirs in it.
use k4all_operator.Argocd.Types.{
  ArgocdReconciler, Callbacks, Reconciled, status_args, install_args, uninstall_args,
}
use k4all_operator.Base.{String, ◌==◌, ◌&&◌, List, none, some, Bool, true, not, if◌then◌else◌}
use k4all_operator.Base.Dict.{Dict, insert, lookup}
use k4all_operator.Base.Effect.{Error, is_not_found, pure, crash, lift, handle, ◌>>=◌}
use k4all_operator.Config.Types.{Config}
use k4all_operator.Controller.Annotations.{finished, failing}
use k4all_operator.Controller.ConfigSyncer.{made}
use k4all_operator.Controller.Values.{get_values, save_values}
use k4all_operator.JobRunner.Commands.{Ran, run_helm_command}
use k4all_operator.JobRunner.Commands.HostInfo.{HostInfo, argocd_host_info}
use k4all_operator.World.{Env, Program, Json, Values, perform}
use k4all_operator.World.Objects.{NamespacedName, ConfigMap, Kind}
use k4all_operator.World.Requests.{get_object, delete_object}

abbrev pub ended : Callbacks → Reconciled
ended callbacks = record { outcome = finished; output_callbacks = callbacks }

-- `return ctrl.Result{RequeueAfter: time.Minute}, err`
abbrev pub retry : Error → Callbacks → Reconciled
retry e callbacks = record { outcome = failing 60 e; output_callbacks = callbacks }

-- The assignments to the map of values, which panic if it is nil.
unfoldable pub set_argocd_values : Bool → Bool → String → Dict Json → Dict Json
set_argocd_values enabled managed version values =
    insert "version" (Json.text version)
      (insert "managed" (Json.bool managed) (insert "enabled" (Json.bool enabled) values))

unfoldable pub version_or_default : String → String
version_or_default version = if version == "" then "7.8.7" else version

module _ (E : Env) (r : ArgocdReconciler) where
  abbrev pub argocd_values_key : NamespacedName
  argocd_values_key = record { name = r.values_config_map; namespace_ = r.config_map_ns }

  -- SaveValues and GetValues.
  abbrev pub save_argocd_values : Values → Program E Unit
  save_argocd_values = save_values E argocd_values_key

  abbrev pub get_argocd_values : Program E Values
  get_argocd_values = get_values E argocd_values_key

  unfoldable pub helm_command : List String → Callbacks → Program E Ran
  helm_command = run_helm_command E r.config_map_ns r.tools_image

  unfoldable pub store : Values → Callbacks → Program E Reconciled
  store values callbacks =
      handle (save_argocd_values values) (λ e. pure (retry e callbacks))
        (λ _. pure (ended callbacks))

  -- After the installation by helm.
  unfoldable pub after_install : Values → Ran → Program E Reconciled
  unfolding store
  after_install values ran = elim ran.error [
    | some e ↦ pure (retry e ran.output_callbacks)
    | none ↦ store values ran.output_callbacks
  ]

  -- After the host was asked.
  unfoldable pub install : String → Values → HostInfo → Program E Reconciled
  unfolding after_install helm_command install_args
  install version values info = elim info.error [
    | some e ↦ pure (retry e info.output_callbacks)
    | none ↦ do
      ran ← helm_command (install_args r version info.ip info.fqdn) info.output_callbacks
      after_install values ran
  ]

  -- The feature is enabled, and helm was asked for the release: any error counts as absence.
  unfoldable pub ensure_installed : String → Values → Ran → Program E Reconciled
  unfolding install store
  ensure_installed version values status = elim status.error [
    | none ↦ store values status.output_callbacks
    | some _ ↦ do
      info ← argocd_host_info E r.config_map_ns r.tools_image status.output_callbacks
      install version values info
  ]

  -- After the removal by helm.
  unfoldable pub after_uninstall : Values → Ran → Program E Reconciled
  unfolding store
  after_uninstall values ran = elim ran.error [
    | some e ↦ pure (retry e ran.output_callbacks)
    | none ↦
        handle
          (perform E
            (delete_object Kind.namespace_ (record { name = r.helm_release_ns; namespace_ = "" })))
          (λ e. pure (retry e ran.output_callbacks)) (λ _. store values ran.output_callbacks)
  ]

  -- The feature is disabled, and helm was asked for the release.
  unfoldable pub ensure_removed : Values → Ran → Program E Reconciled
  unfolding after_uninstall store helm_command uninstall_args
  ensure_removed values status = elim status.error [
    | some _ ↦ store values status.output_callbacks
    | none ↦ do
      ran ← helm_command (uninstall_args r) status.output_callbacks
      after_uninstall values ran
  ]

  -- From the current values on.
  unfoldable pub apply_config : Config → Callbacks → Values → Program E Reconciled
  unfolding set_argocd_values version_or_default ensure_installed ensure_removed helm_command
      status_args
  apply_config config callbacks none = crash "assignment to entry in nil map"
  apply_config config callbacks (some values) =
      let is_enabled = config.features.argocd.enabled == "true" in
      let version = version_or_default config.features.argocd.version in
      let updated = some (set_argocd_values is_enabled true version values) in
      do
        status ← helm_command (status_args r) callbacks
        if is_enabled
            then ensure_installed version updated status
            else ensure_removed updated status

  -- From the parsed configuration on.
  unfoldable pub reconcile_config : Callbacks → Config → Program E Reconciled
  unfolding apply_config
  reconcile_config callbacks config =
      if not (config.features.argocd.managed == "true")
      then pure (ended callbacks)
      else handle get_argocd_values (λ e. pure (retry e callbacks)) (apply_config config callbacks)

  -- From the ConfigMap read on.
  unfoldable pub reconcile_config_map : Callbacks → ConfigMap → Program E Reconciled
  unfolding reconcile_config
  reconcile_config_map callbacks cm = elim (lookup "config.json" (made cm.entries)) [
    | none ↦ pure (ended callbacks)
    | some text ↦
        handle (lift (E.unmarshal text))
          (λ e. pure (record { outcome = failing 0 e; output_callbacks = callbacks }))
          (reconcile_config callbacks)
  ]

  unfoldable pub reconcile_argocd : Callbacks → NamespacedName → Program E Reconciled
  unfolding reconcile_config_map
  reconcile_argocd callbacks req =
      if not (req.name == r.config_map_name && req.namespace_ == r.config_map_ns)
      then pure (ended callbacks)
      else handle (perform E (get_object Kind.config_map req))
          (λ e. pure (
            if is_not_found e
            then ended callbacks
            else record { outcome = failing 0 e; output_callbacks = callbacks }))
          (reconcile_config_map callbacks)
