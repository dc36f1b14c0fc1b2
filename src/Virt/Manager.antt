-- ===== src/Virt/Manager.antt =====
-- Installing and removing the KubeVirt Manager.
use k4all_operator.Base.{ℕ, String, [], ◌∷◌, Bool, false, if◌then◌else◌}
use k4all_operator.Base.Effect.{is_not_found, pure, fail, lift, handle, ◌>>◌, ignore}
use k4all_operator.Downloader.Apply.{apply_yaml_from_url}
use k4all_operator.Downloader.Delete.{delete_yaml_from_url}
use k4all_operator.Downloader.Ready.{ensure_namespace}
use k4all_operator.Virt.Installed.{has_replicas}
use k4all_operator.Virt.Types.{deployment_gvk, manager_name}
use k4all_operator.World.{Env, Program, perform}
use k4all_operator.World.Objects.{Kind}
use k4all_operator.World.Requests.{get_object, delete_object}

abbrev bundle_url : String
bundle_url =
    "https://raw.githubusercontent.com/kubevirt-manager/kubevirt-manager/main/kubernetes/bundled.yaml"

abbrev crd_url : String
crd_url =
    "https://raw.githubusercontent.com/kubevirt-manager/kubevirt-manager/main/kubernetes/crd.yaml"

module _ (E : Env) where
  -- The condition of the wait for the old deployment's removal.
  unfoldable pub is_manager_gone : Program E Bool
  is_manager_gone =
      handle (perform E (get_object (Kind.custom deployment_gvk) manager_name))
        (λ e. pure (is_not_found e)) (λ deployment. pure false)

  -- An existing deployment is deleted first. The wait's error is logged.
  unfoldable pub remove_existing_manager : Program E Unit
  unfolding is_manager_gone
  remove_existing_manager =
      handle (perform E (get_object (Kind.custom deployment_gvk) manager_name))
        (λ e. if is_not_found e then pure tt else fail e)
        λ deployment. do
          perform E (delete_object (Kind.custom deployment_gvk) manager_name)
          ignore (E.poll 2 30 false is_manager_gone)

  -- The condition of the wait for the new deployment.
  unfoldable pub is_manager_ready : Program E Bool
  unfolding has_replicas
  is_manager_ready =
      handle (perform E (get_object (Kind.custom deployment_gvk) manager_name))
        (λ e. if is_not_found e then pure false else fail e)
        (λ deployment.
          handle (lift (E.nested_int64 deployment ("status" ∷ "availableReplicas" ∷ [])))
            (λ e. pure false) (λ replicas. pure (has_replicas replicas)))

  unfoldable pub install_kubevirt_manager : ℕ → Program E Unit
  unfolding remove_existing_manager is_manager_ready
  install_kubevirt_manager fuel = do
    remove_existing_manager
    ensure_namespace E "kubevirt-manager"
    apply_yaml_from_url E fuel bundle_url
    apply_yaml_from_url E fuel crd_url
    E.poll 5 120 false is_manager_ready

  unfoldable pub uninstall_kubevirt_manager : ℕ → Program E Unit
  uninstall_kubevirt_manager fuel = do
    ignore (delete_yaml_from_url E fuel bundle_url)
    ignore (delete_yaml_from_url E fuel crd_url)
