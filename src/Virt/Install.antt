-- ===== src/Virt/Install.antt =====
-- Installing and removing all the components.
pub mod Order
pub mod Content
use k4all_operator.Base.{ℕ, String, ◌<>◌, Bool, true, false, if◌then◌else◌}
use k4all_operator.Base.Effect.{is_not_found, pure, handle, ◌>>=◌, ◌>>◌, ignore, unless_not_found}
use k4all_operator.Base.Text.{trim_space}
use k4all_operator.Downloader.Apply.{apply_yaml_from_url}
use k4all_operator.Downloader.Delete.{delete_yaml_from_url}
use k4all_operator.Downloader.Ready.{
  kubevirt_gvk, kubevirt_name, namespace_name, ensure_namespace, wait_for_kubevirt_ready,
}
use k4all_operator.Downloader.Versions.{get_latest_kubevirt_version}
use k4all_operator.Virt.Cdi.{install_cdi, uninstall_cdi}
use k4all_operator.Virt.Emulation.{update_emulation_setting}
use k4all_operator.Virt.Kvm.{check_emulation_needed}
use k4all_operator.Virt.Manager.{install_kubevirt_manager, uninstall_kubevirt_manager}
use k4all_operator.Virt.Types.{VirtReconciler}
use k4all_operator.World.{Env, Program, perform}
use k4all_operator.World.Objects.{Kind}
use k4all_operator.World.Requests.{get_object, delete_object}

abbrev kubevirt_url : String → String → String
kubevirt_url version file =
    "https://github.com/kubevirt/kubevirt/releases/download/" <> version <> "/" <> file

-- A placeholder in the source too.
abbrev pub get_emulation_setting : String
get_emulation_setting = "auto"

-- `fuel` bounds the documents of a manifest, and `ticks` the looks at KubeVirt's phase.
module _ (E : Env) (r : VirtReconciler) (fuel ticks : ℕ) where
  -- KubeVirt itself, up to the wait for it.
  unfoldable pub install_kubevirt : Program E Unit
  install_kubevirt = do
    ensure_namespace E "kubevirt"
    latest ← get_latest_kubevirt_version E
    let version = trim_space latest
    apply_yaml_from_url E fuel (kubevirt_url version "kubevirt-operator.yaml")
    apply_yaml_from_url E fuel (kubevirt_url version "kubevirt-cr.yaml")
    wait_for_kubevirt_ready E ticks

  -- What follows: the emulation, CDI and the manager.
  unfoldable pub install_extras : Program E Unit
  install_extras = do
    emulation_setting ← check_emulation_needed E r get_emulation_setting
    if emulation_setting then update_emulation_setting E true else pure tt
    install_cdi E fuel
    install_kubevirt_manager E fuel

  unfoldable pub install_virt_components : Program E Unit
  unfolding install_kubevirt install_extras
  install_virt_components = do install_kubevirt; install_extras

  -- The condition of the wait for KubeVirt's removal; errors are logged.
  unfoldable pub is_kubevirt_gone : Program E Bool
  is_kubevirt_gone =
      handle (perform E (get_object (Kind.custom kubevirt_gvk) kubevirt_name))
        (λ e. pure (is_not_found e)) (λ kubevirt. pure false)

  -- The resources of the operator's manifest; any error is logged.
  unfoldable pub delete_kubevirt_operator : Program E Unit
  delete_kubevirt_operator =
      handle (get_latest_kubevirt_version E) (λ e. pure tt)
        (λ latest.
          ignore (
            delete_yaml_from_url E fuel
              (kubevirt_url (trim_space latest) "kubevirt-operator.yaml")))

  unfoldable pub uninstall_virt_components : Program E Unit
  unfolding is_kubevirt_gone delete_kubevirt_operator
  uninstall_virt_components = do
    ignore (uninstall_kubevirt_manager E fuel)
    ignore (uninstall_cdi E fuel)
    ignore (perform E (delete_object (Kind.custom kubevirt_gvk) kubevirt_name))
    ignore (E.poll 5 180 false is_kubevirt_gone)
    delete_kubevirt_operator
    unless_not_found (perform E (delete_object Kind.namespace_ (namespace_name "kubevirt")))
