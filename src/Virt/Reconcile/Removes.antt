-- ===== src/Virt/Reconcile/Removes.antt =====
-- What a reconciliation may call where the feature is not enabled.
use k4all_operator.Base.{ℕ, zero, suc, String, ◌≡◌, ◌==◌, none, some, Bool, false, not, arith}
use k4all_operator.Base.Keeps.{
  Keeps, keeps_rules, Keeps-pure, Keeps-bind, Keeps-handle, Keeps-ignore, Keeps-if, Keeps-crash,
  Keeps-unless_not_found,
}
use k4all_operator.Config.Types.{Config}
use k4all_operator.Controller.Annotations.{Outcome}
use k4all_operator.Controller.Values.{get_values, save_values, store_values, decode_values}
use k4all_operator.Downloader.Delete.{
  delete_document, delete_decoded, delete_documents, delete_yaml_from_url,
}
use k4all_operator.Downloader.Versions.{get_latest_kubevirt_version, get_latest_cdi_version}
use k4all_operator.Virt.Cdi.{delete_cdi_operator, uninstall_cdi}
use k4all_operator.Virt.Install.{
  delete_kubevirt_operator, is_kubevirt_gone, uninstall_virt_components,
}
use k4all_operator.Virt.Installed.{
  is_kubevirt_installed, is_cdi_installed, is_kubevirt_manager_installed, is_virt_installed,
}
use k4all_operator.Virt.Manager.{uninstall_kubevirt_manager}
use k4all_operator.Virt.Reconcile.{
  is_namespace_present, delete_namespace, or_retry, when_disabled, with_values, with_config,
}
use k4all_operator.Virt.Types.{VirtReconciler}
use k4all_operator.World.{Env, Program, Values, Decoded, perform, document, eof, malformed}
use k4all_operator.World.Emits.{
  Since, Emits, since_rules, Since-Emits, perform-Since, Origin, waits-Since,
}
use k4all_operator.World.Objects.{NamespacedName, Kind}
use k4all_operator.World.Polling.{IsPolling}
use k4all_operator.World.Requests.{Request, Sys, delete_object}

-- Reads, deletions, and writes of the ConfigMap with the feature's values.
abbrev pub Removes : {U : Type 0} → Request U → Type 0
Removes (Request.create_object Kind.config_map cm) = Unit
Removes (Request.update_object Kind.config_map cm) = Unit
Removes (Request.create_object _ _) = ⊥
Removes (Request.update_object _ _) = ⊥
Removes (Request.patch_object _ _ _) = ⊥
Removes (Request.write_file _ _) = ⊥
Removes (Request.mkdir_all _) = ⊥
Removes (Request.rename_file _ _) = ⊥
Removes (Request.chmod_file _ _) = ⊥
Removes _ = Unit

module _ (E : Env) (W : IsPolling E) (r : VirtReconciler) (old : Origin E Removes) where
  abbrev Leaves : Sys E.State E.Unstructured → Type 0
  Leaves = Since Removes old

  delete_document-Leaves : (obj : E.Unstructured) → Keeps Leaves (delete_document E obj)
  unfolding delete_document
  delete_document-Leaves obj = search (keeps_rules, since_rules) depth 8

  delete_decoded-Leaves :
      (rest : Program E Unit) (d : Decoded E.Unstructured)
      → Keeps Leaves rest
      → Keeps Leaves (delete_decoded E rest d)
  unfolding delete_decoded
  delete_decoded-Leaves rest (document obj) k =
      Keeps-bind (delete_document E obj) (λ _. rest) (delete_document-Leaves obj) (λ _. k)
  delete_decoded-Leaves rest eof k = Keeps-pure tt
  delete_decoded-Leaves rest (malformed m) k = k

  delete_documents-Leaves :
      (fuel : ℕ) (body : E.Body) (n : ℕ) → Keeps Leaves (delete_documents E fuel body n)
  unfolding delete_documents
  delete_documents-Leaves zero body n = Keeps-crash _
  delete_documents-Leaves (suc fuel) body n =
      delete_decoded-Leaves _ _ (delete_documents-Leaves fuel body (suc n))

  delete_yaml_from_url-Leaves :
      (fuel : ℕ) (url : String) → Keeps Leaves (delete_yaml_from_url E fuel url)
  unfolding delete_yaml_from_url
  delete_yaml_from_url-Leaves fuel url =
      search (keeps_rules, since_rules, delete_documents-Leaves) depth 9

  pub kubevirt_version-Leaves : Keeps {A = String} Leaves (get_latest_kubevirt_version E)
  unfolding get_latest_kubevirt_version
  kubevirt_version-Leaves = search (keeps_rules, since_rules) depth 9

  pub cdi_version-Leaves : Keeps {A = String} Leaves (get_latest_cdi_version E)
  unfolding get_latest_cdi_version
  cdi_version-Leaves = search (keeps_rules, since_rules) depth 9

  poll-Leaves :
      (interval timeout : ℕ) (immediate : Bool) (condition : Program E Bool)
      → Keeps Leaves condition
      → Keeps Leaves (E.poll interval timeout immediate condition)
  poll-Leaves interval timeout immediate condition k =
      W.keeps (Since Removes old) interval timeout immediate condition (waits-Since E Removes old) k

  delete-Leaves :
      (k : Kind) (n : NamespacedName) → Keeps {A = Unit} Leaves (perform E (delete_object k n))
  delete-Leaves k n = perform-Since E Removes old (delete_object k n) tt

  pub delete_cdi_operator-Leaves : (fuel : ℕ) → Keeps Leaves (delete_cdi_operator E fuel)
  unfolding delete_cdi_operator
  delete_cdi_operator-Leaves fuel =
      Keeps-handle _ _ _ cdi_version-Leaves (λ _. Keeps-pure tt)
        λ version. Keeps-ignore _ (delete_yaml_from_url-Leaves fuel _)

  uninstall_cdi-Leaves : (fuel : ℕ) → Keeps Leaves (uninstall_cdi E fuel)
  unfolding uninstall_cdi
  uninstall_cdi-Leaves fuel =
      Keeps-bind _ _ (Keeps-unless_not_found _ (delete-Leaves _ _))
        λ _. delete_cdi_operator-Leaves fuel

  uninstall_manager-Leaves : (fuel : ℕ) → Keeps Leaves (uninstall_kubevirt_manager E fuel)
  unfolding uninstall_kubevirt_manager
  uninstall_manager-Leaves fuel = search (keeps_rules, delete_yaml_from_url-Leaves) depth 9

  delete_kubevirt_operator-Leaves :
      (fuel ticks : ℕ) → Keeps Leaves (delete_kubevirt_operator E r fuel ticks)
  unfolding delete_kubevirt_operator
  delete_kubevirt_operator-Leaves fuel ticks =
      Keeps-handle _ _ _ kubevirt_version-Leaves (λ _. Keeps-pure tt)
        λ version. Keeps-ignore _ (delete_yaml_from_url-Leaves fuel _)

  is_kubevirt_gone-Leaves :
      (fuel ticks : ℕ) → Keeps {A = Bool} Leaves (is_kubevirt_gone E r fuel ticks)
  unfolding is_kubevirt_gone
  is_kubevirt_gone-Leaves fuel ticks = search (keeps_rules, since_rules) depth 9

  uninstall-Leaves : (fuel ticks : ℕ) → Keeps Leaves (uninstall_virt_components E r fuel ticks)
  unfolding uninstall_virt_components
  uninstall-Leaves fuel ticks = Keeps-bind _ _ (Keeps-ignore _ (uninstall_manager-Leaves fuel)) λ _.
      Keeps-bind _ _ (Keeps-ignore _ (uninstall_cdi-Leaves fuel)) λ _.
        Keeps-bind _ _ (Keeps-ignore _ (delete-Leaves _ _)) λ _.
          Keeps-bind _ _
            (Keeps-ignore _ (poll-Leaves 5 180 false _ (is_kubevirt_gone-Leaves fuel ticks)))
            λ _.
              Keeps-bind _ _ (delete_kubevirt_operator-Leaves fuel ticks)
                λ _. Keeps-unless_not_found _ (delete-Leaves _ _)

  pub is_virt_installed-Leaves : Keeps Leaves (is_virt_installed E)
  unfolding is_virt_installed is_kubevirt_installed is_cdi_installed is_kubevirt_manager_installed
  is_virt_installed-Leaves = search (keeps_rules, since_rules) depth 12

  pub save_values-Leaves :
      (key : NamespacedName) (values : Values) → Keeps Leaves (save_values E key values)
  unfolding save_values store_values
  save_values-Leaves key values = search (keeps_rules, since_rules) depth 12

  pub get_values-Leaves : (key : NamespacedName) → Keeps {A = Values} Leaves (get_values E key)
  unfolding get_values decode_values
  get_values-Leaves key = search (keeps_rules, since_rules) depth 9

  or_retry-Leaves :
      {A : Type 0} (m : Program E A) (next : A → Program E Outcome)
      → Keeps Leaves m
      → ((a : A) → Keeps Leaves (next a))
      → Keeps Leaves (or_retry E m next)
  unfolding or_retry
  or_retry-Leaves m next km kn = Keeps-handle m _ next km (λ e. Keeps-pure _) kn

  pub when_disabled-Leaves :
      (fuel ticks : ℕ) (values : Values) → Keeps Leaves (when_disabled E r fuel ticks values)
  unfolding when_disabled is_namespace_present delete_namespace
  when_disabled-Leaves fuel ticks values =
      or_retry-Leaves _ _ is_virt_installed-Leaves λ is_installed.
        Keeps-if is_installed _ _
          (λ _.
            or_retry-Leaves _ _ (save_values-Leaves _ values)
              λ _. or_retry-Leaves _ _ (uninstall-Leaves fuel ticks) λ _. Keeps-pure _)
          (λ _. or_retry-Leaves _ _ (search (keeps_rules, since_rules) depth 9) λ is_present.
            Keeps-if is_present _ _
              (λ _. or_retry-Leaves _ _ (delete-Leaves _ _) (λ _. Keeps-pure _))
              (λ _. Keeps-pure _))

  values-Leaves :
      (fuel ticks : ℕ) (config : Config)
      → (config.features.virt.enabled == "true") ≡ false
      → (values : Values) → Keeps Leaves (with_values E r fuel ticks config values)
  unfolding with_values
  values-Leaves fuel ticks config disabled none = Keeps-crash _
  values-Leaves fuel ticks config disabled (some values) =
      Keeps-if (config.features.virt.enabled == "true") _ _
        (λ enabled. absurd (ground (arith, enabled, disabled)))
        (λ _. when_disabled-Leaves fuel ticks _)

  with_config-Leaves :
      (fuel ticks : ℕ) (config : Config)
      → (config.features.virt.enabled == "true") ≡ false
      → Keeps Leaves (with_config E r fuel ticks config)
  unfolding with_config
  with_config-Leaves fuel ticks config disabled =
      Keeps-if (not (config.features.virt.managed == "true")) _ _ (λ _. Keeps-pure _)
        λ _. or_retry-Leaves _ _ (get_values-Leaves _) (values-Leaves fuel ticks config disabled)

-- Where the configuration does not enable the feature, the steps after it was parsed call nothing
-- but reads, deletions, and the creation or the update of a ConfigMap, whatever the world answers.
pub with_config-Removes :
    (E : Env) (W : IsPolling E) (r : VirtReconciler) (fuel ticks : ℕ) (config : Config)
    → (config.features.virt.enabled == "true") ≡ false
    → Emits E Removes (with_config E r fuel ticks config)
with_config-Removes E W r fuel ticks config disabled =
    Since-Emits E Removes _ (λ old. with_config-Leaves E W r old fuel ticks config disabled)
