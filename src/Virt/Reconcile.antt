-- ===== src/Virt/Reconcile.antt =====
-- VirtReconciler.Reconcile.
pub mod Reads
pub mod Removes
pub mod Content
use k4all_operator.Base.{
  ℕ, String, ◌==◌, ◌&&◌, List, [], ◌∷◌, Option, none, some, Bool, true, false, not, if◌then◌else◌,
}
use k4all_operator.Base.Dict.{Dict, insert, lookup}
use k4all_operator.Base.Effect.{Error, is_not_found, pure, fail, crash, lift, handle, ◌>>=◌, ◌>>◌}
use k4all_operator.Config.Types.{Config}
use k4all_operator.Controller.Annotations.{Outcome, finished, failing}
use k4all_operator.Controller.ConfigSyncer.{made}
use k4all_operator.Controller.Values.{get_values, save_values}
use k4all_operator.Downloader.Ready.{namespace_name}
use k4all_operator.Virt.Emulation.{update_emulation_setting}
use k4all_operator.Virt.Install.{install_virt_components, uninstall_virt_components}
use k4all_operator.Virt.Installed.{is_virt_installed}
use k4all_operator.Virt.Kvm.{check_emulation_needed}
use k4all_operator.Virt.Types.{VirtReconciler}
use k4all_operator.World.{Env, Program, Json, Values, perform}
use k4all_operator.World.Objects.{NamespacedName, ConfigMap, Kind}
use k4all_operator.World.Requests.{get_object, delete_object}

-- ctrl.Result{RequeueAfter: 30 * time.Second}, nil
abbrev pub follow_up : Outcome
follow_up = record { requeue_after = 30; error = none }

module _ (E : Env) where
  -- Any error counts as absence.
  unfoldable pub is_namespace_present : Program E Bool
  is_namespace_present =
      handle (perform E (get_object Kind.namespace_ (namespace_name "kubevirt"))) (λ e. pure false)
        (λ ns. pure true)

  unfoldable pub delete_namespace : Program E Unit
  delete_namespace = perform E (delete_object Kind.namespace_ (namespace_name "kubevirt"))

  -- `if err := …; err != nil { return ctrl.Result{RequeueAfter: time.Minute}, err }`
  unfoldable pub or_retry : {A : Type 0} → Program E A → (A → Program E Outcome) → Program E Outcome
  or_retry m next = handle m (λ e. pure (failing 60 e)) next

-- The assignments to the map of values, which panic if it is nil.
unfoldable pub set_values : Bool → Bool → String → Dict Json → Dict Json
set_values enabled managed emulation values =
    insert "emulation" (Json.text emulation)
      (insert "managed" (Json.bool managed) (insert "enabled" (Json.bool enabled) values))

module _ (E : Env) (r : VirtReconciler) where
  abbrev pub virt_values_key : NamespacedName
  virt_values_key = record { name = r.values_config_map; namespace_ = r.config_map_ns }

  -- SaveValues and GetValues.
  abbrev pub save_virt_values : Values → Program E Unit
  save_virt_values = save_values E virt_values_key

  abbrev pub get_virt_values : Program E Values
  get_virt_values = get_values E virt_values_key

module _ (E : Env) (r : VirtReconciler) (fuel ticks : ℕ) where
  -- The feature is installed: the emulation is set, and the values are saved.
  unfoldable pub when_installed : String → Values → Program E Outcome
  unfolding or_retry
  when_installed emulation values =
      or_retry E (check_emulation_needed E r emulation) λ use_emulation.
        or_retry E (update_emulation_setting E use_emulation)
          λ _. or_retry E (save_virt_values E r values) λ _. pure finished

  unfoldable pub when_enabled : String → Values → Program E Outcome
  unfolding when_installed or_retry
  when_enabled emulation values = or_retry E (is_virt_installed E) λ is_installed.
      if not is_installed
      then or_retry E (install_virt_components E r fuel ticks) (λ _. pure follow_up)
      else when_installed emulation values

  unfoldable pub when_disabled : Values → Program E Outcome
  unfolding or_retry is_namespace_present delete_namespace
  when_disabled values = or_retry E (is_virt_installed E) λ is_installed.
      if is_installed
      then or_retry E (save_virt_values E r values)
          (λ _. or_retry E (uninstall_virt_components E r fuel ticks) (λ _. pure follow_up))
      else or_retry E (is_namespace_present E) λ is_present.
        if is_present then or_retry E (delete_namespace E) (λ _. pure finished) else pure finished

  -- From the current values on.
  unfoldable pub with_values : Config → Values → Program E Outcome
  unfolding set_values when_enabled when_disabled
  with_values config none = crash "assignment to entry in nil map"
  with_values config (some values) =
      let is_enabled = config.features.virt.enabled == "true" in
      let emulation = config.features.virt.emulation in
      let updated = some (set_values is_enabled true emulation values) in
      if is_enabled then when_enabled emulation updated else when_disabled updated

  -- From the parsed configuration on.
  unfoldable pub with_config : Config → Program E Outcome
  unfolding with_values or_retry
  with_config config =
      if not (config.features.virt.managed == "true")
      then pure finished
      else or_retry E (get_virt_values E r) (with_values config)

  -- From the ConfigMap read on.
  unfoldable pub with_config_map : ConfigMap → Program E Outcome
  unfolding with_config
  with_config_map cm = elim (lookup "config.json" (made cm.entries)) [
    | none ↦ pure finished
    | some text ↦ handle (lift (E.unmarshal text)) (λ e. pure (failing 0 e)) with_config
  ]

  unfoldable pub reconcile : NamespacedName → Program E Outcome
  unfolding with_config_map
  reconcile req =
      if not (req.name == r.config_map_name && req.namespace_ == r.config_map_ns)
      then pure finished
      else handle (perform E (get_object Kind.config_map req))
          (λ e. pure (if is_not_found e then finished else failing 0 e)) with_config_map
