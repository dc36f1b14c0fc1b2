-- ===== src/Virt/Reconcile/Content.antt =====
-- A reconciliation of the virtualisation feature writes no file of the host.
use k4all_operator.Base.{ℕ, String, ◌==◌, ◌&&◌, Option, some, none, not}
use k4all_operator.Base.Dict.{lookup}
use k4all_operator.Base.Keeps.{
  Keeps, Keeps-pure, Keeps-crash, Keeps-handle, Keeps-if, Keeps-lift, Keeps-option,
}
use k4all_operator.Config.Types.{Config}
use k4all_operator.Controller.Annotations.{Outcome}
use k4all_operator.Controller.ConfigSyncer.{made}
use k4all_operator.Virt.Reconcile.{
  save_virt_values, when_installed, when_enabled, with_values, with_config, with_config_map,
  reconcile, or_retry,
}
use k4all_operator.Virt.Reconcile.Removes.{
  Removes, is_virt_installed-Leaves, save_values-Leaves, get_values-Leaves, when_disabled-Leaves,
}
use k4all_operator.Virt.Types.{VirtReconciler}
use k4all_operator.World.{Env, Program, Values, perform}
use k4all_operator.World.Content.{Content, Keeps-Content}
use k4all_operator.World.Emits.{Origin, Since, get_config_map-Since}
use k4all_operator.World.FileSystem.{IsFileSystem, IsHost, LeavesFiles}
use k4all_operator.World.Objects.{NamespacedName, ConfigMap, Kind}
use k4all_operator.World.Polling.{IsPolling}
use k4all_operator.World.Requests.{Sys, get_object}
use k4all_operator.Virt.Install.Content.{
  removes, check_emulation-Leaves, update_emulation-Leaves, install_virt-Leaves,
}

module _ (E : Env) (W : IsPolling E) (r : VirtReconciler) (fuel ticks : ℕ)
    (old : Origin E LeavesFiles) where
  abbrev Leaves : Sys E.State E.Unstructured → Type 0
  Leaves = Since LeavesFiles old

  kept :
      {A : Type 0} (m : Program E A)
      → ((older : Origin E Removes) → Keeps (Since Removes older) m)
      → Keeps Leaves m
  kept = removes E W r old

  save-Leaves : (values : Values) → Keeps Leaves (save_virt_values E r values)
  save-Leaves values = kept _ λ older. save_values-Leaves E W r older _ values

  or_retry-Leaves :
      {A : Type 0} (m : Program E A) (next : A → Program E Outcome)
      → Keeps Leaves m
      → ((a : A) → Keeps Leaves (next a))
      → Keeps Leaves (or_retry E m next)
  unfolding or_retry
  or_retry-Leaves m next km kn = Keeps-handle m _ next km (λ e. Keeps-pure _) kn

  when_enabled-Leaves :
      (emulation : String) (values : Values)
      → Keeps Leaves (when_enabled E r fuel ticks emulation values)
  unfolding when_enabled when_installed
  when_enabled-Leaves emulation values =
      or_retry-Leaves _ _ (kept _ λ older. is_virt_installed-Leaves E W r older) λ is_installed.
        Keeps-if (not is_installed) _ _
          (λ _. or_retry-Leaves _ _ (install_virt-Leaves E W r old fuel ticks) (λ _. Keeps-pure _))
          (λ _. or_retry-Leaves _ _ (check_emulation-Leaves E W r old emulation) λ use_emulation.
            or_retry-Leaves _ _ (update_emulation-Leaves E W r old use_emulation)
              λ _. or_retry-Leaves _ _ (save-Leaves values) (λ _. Keeps-pure _))

  values-Leaves :
      (config : Config) (values : Values) → Keeps Leaves (with_values E r fuel ticks config values)
  unfolding with_values
  values-Leaves config none = Keeps-crash _
  values-Leaves config (some values) =
      Keeps-if (config.features.virt.enabled == "true") _ _ (λ _. when_enabled-Leaves _ _)
        (λ _. kept _ λ older. when_disabled-Leaves E W r older fuel ticks _)

  with_config-Leaves : (config : Config) → Keeps Leaves (with_config E r fuel ticks config)
  unfolding with_config
  with_config-Leaves config =
      Keeps-if (not (config.features.virt.managed == "true")) _ _ (λ _. Keeps-pure _)
        λ _.
          or_retry-Leaves _ _ (kept _ λ older. get_values-Leaves E W r older _)
            (values-Leaves config)

  read-Leaves :
      (req : NamespacedName)
      → Keeps {A = ConfigMap} Leaves (perform E (get_object Kind.config_map req))
  read-Leaves req = get_config_map-Since E LeavesFiles old req tt

  reconcile-Leaves : (req : NamespacedName) → Keeps Leaves (reconcile E r fuel ticks req)
  unfolding reconcile with_config_map
  reconcile-Leaves req =
      Keeps-if (not (req.name == r.config_map_name && req.namespace_ == r.config_map_ns)) _ _
        (λ _. Keeps-pure _)
        λ _.
          Keeps-handle _ _ _ (read-Leaves req) (λ e. Keeps-pure _)
            λ cm. Keeps-option (lookup "config.json" (made cm.entries)) _ _ (Keeps-pure _) λ text.
              Keeps-handle _ _ _ (Keeps-lift (E.unmarshal text)) (λ e. Keeps-pure _)
                with_config-Leaves

pub reconcile_virt-Content :
    (E : Env) (F : IsFileSystem E) (H : IsHost E F) (path : String) (W : IsPolling E)
    (r : VirtReconciler) (fuel ticks : ℕ) (req : NamespacedName) (held : Option String)
    → Keeps (Content E F H path held) (reconcile E r fuel ticks req)
reconcile_virt-Content E F H path W r fuel ticks req held =
    Keeps-Content E F H path LeavesFiles held _ (λ q h. h)
      λ old. reconcile-Leaves E W r fuel ticks old req
