-- ===== src/Downloader/Ready.antt =====
-- Waiting for KubeVirt, namespaces, and patches.
pub mod Deployed
use k4all_operator.Base.{
  ℕ, zero, suc, String, ◌==◌, Bool, true, false, Option, none, some, List, [], ◌∷◌, if◌then◌else◌,
}
use k4all_operator.Base.Effect.{
  other, is_not_found, Result, ok, err, panic, pure, fail, lift, handle, ◌>>=◌, ◌>>◌,
}
use k4all_operator.World.{Env, Program, perform, pause}
use k4all_operator.World.Objects.{NamespacedName, Gvk, Namespace, Kind}
use k4all_operator.World.Requests.{get_object, create_object, patch_object}

abbrev pub kubevirt_gvk : Gvk
kubevirt_gvk = record { group = "kubevirt.io"; version = "v1"; kind = "KubeVirt" }

abbrev pub kubevirt_name : NamespacedName
kubevirt_name = record { name = "kubevirt"; namespace_ = "kubevirt" }

abbrev pub namespace_name : String → NamespacedName
namespace_name name = record { name = name; namespace_ = "" }

module _ (E : Env) where
  -- The test of the phase read.
  unfoldable pub phase_seen : Result (Option String) → Program E Bool
  phase_seen read =
      handle (lift read) (λ e. pure false)
        (λ phase. pure (elim phase [ none ↦ false | some text ↦ text == "Deployed" ]))

  -- One tick: whether the resource was seen in the phase "Deployed". Errors are logged.
  unfoldable pub sees_deployed : Program E Bool
  unfolding phase_seen
  sees_deployed =
      handle (perform E (get_object (Kind.custom kubevirt_gvk) kubevirt_name)) (λ e. pure false)
        (λ kubevirt. phase_seen (E.nested_string kubevirt ("status" ∷ "phase" ∷ [])))

  -- The loop, over the ticks of 5 seconds that `select` takes before it takes the timeout.
  unfoldable pub wait_for_kubevirt_ready : ℕ → Program E Unit
  unfolding sees_deployed
  wait_for_kubevirt_ready zero = fail (other "timeout waiting for KubeVirt to be ready")
  wait_for_kubevirt_ready (suc ticks) =
      let rest = wait_for_kubevirt_ready ticks in
      do pause E 5; ready ← sees_deployed; if ready then pure tt else rest

  unfoldable pub ensure_namespace : String → Program E Unit
  ensure_namespace name =
      handle (perform E (get_object Kind.namespace_ (namespace_name name)))
        (λ e.
          if is_not_found e
          then perform E (create_object Kind.namespace_ (record { name = name }))
          else fail e)
        (λ existing. pure tt)

  unfoldable pub patch_resource : Gvk → String → String → String → Program E Unit
  patch_resource gvk name ns patch =
      perform E (patch_object gvk (record { name = name; namespace_ = ns }) patch)
