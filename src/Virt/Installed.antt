-- ===== src/Virt/Installed.antt =====
-- IsVirtInstalled and the checks of its three parts.
pub mod Parts
use k4all_operator.Base.{
  ℕ, String, [], ◌∷◌, Option, none, some, Bool, true, false, not, ◌&&◌, if◌then◌else◌,
}
use k4all_operator.Base.Effect.{is_not_found, is_no_match, pure, fail, lift, handle, ◌>>=◌}
use k4all_operator.Base.Int.{ℤ, pos, ltb_ℤ}
use k4all_operator.Downloader.Ready.{kubevirt_gvk, kubevirt_name}
use k4all_operator.Virt.Types.{
  cdi_gvk, cdi_name, deployment_gvk, manager_name, phase_path, is_deployed,
}
use k4all_operator.World.{Env, Program, perform}
use k4all_operator.World.Objects.{Kind}
use k4all_operator.World.Requests.{get_object}

-- found && availableReplicas > 0
unfoldable pub has_replicas : Option ℤ → Bool
has_replicas none = false
has_replicas (some replicas) = ltb_ℤ (pos 0) replicas

module _ (E : Env) where
  unfoldable pub is_kubevirt_installed : Program E Bool
  unfolding is_deployed
  is_kubevirt_installed =
      handle (perform E (get_object (Kind.custom kubevirt_gvk) kubevirt_name))
        (λ e. if is_not_found e then pure false else fail e)
        λ kubevirt. do phase ← lift (E.nested_string kubevirt phase_path); pure (is_deployed phase)

  unfoldable pub is_cdi_installed : Program E Bool
  unfolding is_deployed
  is_cdi_installed =
      handle (perform E (get_object (Kind.custom cdi_gvk) cdi_name))
        (λ e. if is_no_match e then pure false else if is_not_found e then pure false else fail e)
        λ cdi. do phase ← lift (E.nested_string cdi phase_path); pure (is_deployed phase)

  unfoldable pub is_kubevirt_manager_installed : Program E Bool
  unfolding has_replicas
  is_kubevirt_manager_installed =
      handle (perform E (get_object (Kind.custom deployment_gvk) manager_name))
        (λ e. if is_not_found e then pure false else fail e)
        λ deployment. do
          replicas ← lift (E.nested_int64 deployment ("status" ∷ "availableReplicas" ∷ []))
          pure (has_replicas replicas)

  unfoldable pub is_virt_installed : Program E Bool
  unfolding is_kubevirt_installed is_cdi_installed is_kubevirt_manager_installed
  is_virt_installed = do
    kubevirt_installed ← is_kubevirt_installed
    if not kubevirt_installed then pure false else do
      cdi_installed ← is_cdi_installed
      if not cdi_installed then pure false else do
        kvm_installed ← is_kubevirt_manager_installed
        pure (kubevirt_installed && cdi_installed && kvm_installed)
