-- ===== src/Virt/Cdi.antt =====
-- Installing and removing CDI.
use k4all_operator.Base.{ℕ, String, ◌<>◌, Bool, true, false}
use k4all_operator.Base.Effect.{
  is_not_found, pure, lift, handle, ◌>>=◌, ◌>>◌, ignore, unless_not_found,
}
use k4all_operator.Base.Text.{trim_space}
use k4all_operator.Downloader.Apply.{apply_yaml_from_url}
use k4all_operator.Downloader.Delete.{delete_yaml_from_url}
use k4all_operator.Downloader.Ready.{namespace_name, patch_resource}
use k4all_operator.Downloader.Versions.{get_latest_cdi_version}
use k4all_operator.Virt.Types.{cdi_gvk, cdi_list_gvk, cdi_name, phase_path, is_deployed}
use k4all_operator.World.{Env, Program, perform}
use k4all_operator.World.Objects.{Kind}
use k4all_operator.World.Requests.{get_object, update_object, delete_object, list_custom}

abbrev cdi_url : String → String → String
cdi_url version file =
    "https://github.com/kubevirt/containerized-data-importer/releases/download/v" <> version <> "/"
    <> file

module _ (E : Env) where
  -- The condition of a wait for the removal of CDI's resource; errors are logged.
  unfoldable pub is_cdi_gone : Program E Bool
  is_cdi_gone =
      handle (perform E (get_object (Kind.custom cdi_gvk) cdi_name)) (λ e. pure (is_not_found e))
        (λ cdi. pure false)

  -- The same for its namespace.
  unfoldable pub is_cdi_namespace_gone : Program E Bool
  is_cdi_namespace_gone =
      handle (perform E (get_object Kind.namespace_ (namespace_name "cdi")))
        (λ e. pure (is_not_found e)) (λ ns. pure false)

  -- After CDI's resource was deleted: wait, and clear its finalizers if it does not go away.
  unfoldable pub wait_for_cdi_removal : Program E Unit
  unfolding is_cdi_gone
  wait_for_cdi_removal =
      handle (E.poll 5 10 false is_cdi_gone)
        (λ e. do
          let cdi = E.clear_finalizers (E.new_object cdi_gvk "cdi" "")
          ignore (perform E (update_object (Kind.custom cdi_gvk) cdi))
          ignore (perform E (delete_object (Kind.custom cdi_gvk) cdi_name)))
        (λ _. pure tt)

  -- The resources of the operator's manifest; any error is logged.
  unfoldable pub delete_cdi_operator : ℕ → Program E Unit
  delete_cdi_operator fuel =
      handle (get_latest_cdi_version E) (λ e. pure tt)
        (λ version. ignore (delete_yaml_from_url E fuel (cdi_url version "cdi-operator.yaml")))

  unfoldable pub cleanup_cdi_resources : ℕ → Program E Unit
  unfolding wait_for_cdi_removal delete_cdi_operator is_cdi_namespace_gone
  cleanup_cdi_resources fuel = do
    handle (perform E (delete_object (Kind.custom cdi_gvk) cdi_name)) (λ e. pure tt)
        (λ _. wait_for_cdi_removal)
    delete_cdi_operator fuel
    ignore (perform E (delete_object Kind.namespace_ (namespace_name "cdi")))
    ignore (E.poll 5 10 false is_cdi_namespace_gone)

  -- The condition of the wait for CDI's CRD.
  unfoldable pub is_cdi_registered : Program E Bool
  is_cdi_registered =
      handle (perform E (list_custom cdi_list_gvk)) (λ e. pure false) (λ _. pure true)

  -- The condition of the wait for CDI; errors are logged.
  unfoldable pub is_cdi_ready : Program E Bool
  unfolding is_deployed
  is_cdi_ready =
      handle (perform E (get_object (Kind.custom cdi_gvk) cdi_name)) (λ e. pure false)
        (λ cdi.
          handle (lift (E.nested_string cdi phase_path)) (λ e. pure false)
            (λ phase. pure (is_deployed phase)))

  unfoldable pub install_cdi : ℕ → Program E Unit
  unfolding is_cdi_registered is_cdi_ready
  install_cdi fuel = do
    ignore (cleanup_cdi_resources fuel)
    latest ← get_latest_cdi_version E
    let version = trim_space latest
    apply_yaml_from_url E fuel (cdi_url version "cdi-operator.yaml")
    E.poll 5 120 false is_cdi_registered
    apply_yaml_from_url E fuel (cdi_url version "cdi-cr.yaml")
    E.poll 5 300 false is_cdi_ready
    let patch : String =
        "{\"spec\": {\"config\": {\"podResourceRequirements\": {\"limits\": {\"memory\": \"2G\"}}}}}"
    patch_resource E cdi_gvk "cdi" "" patch

  unfoldable pub uninstall_cdi : ℕ → Program E Unit
  uninstall_cdi fuel = do
    unless_not_found (perform E (delete_object (Kind.custom cdi_gvk) cdi_name))
    delete_cdi_operator fuel
