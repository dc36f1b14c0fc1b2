-- ===== src/System/Filter.antt =====
-- The event filters of the features' controllers, in their SetupWithManager, and the guards of their
-- reconciliations.
use k4all_operator.Argocd.Reconcile.{ended, reconcile_argocd}
use k4all_operator.Argocd.Types.{ArgocdReconciler, Callbacks}
use k4all_operator.Base.{
  ℕ, String, ◌==◌, ◌&&◌, ◌≡◌, refl, Bool, Bool-cases, false, true, arith, ◌⊎◌, inl, inr,
}
use k4all_operator.Base.Effect.{Error, ok, err, is_not_found, handle}
use k4all_operator.Controller.Annotations.{finished}
use k4all_operator.Controller.EventFilter.{Change, created, updated, deleted, passes}
use k4all_operator.Virt.Reconcile
use k4all_operator.Virt.Types.{VirtReconciler}
use k4all_operator.World.{Env, Program, perform}
use k4all_operator.World.Objects.{NamespacedName, Kind}
use k4all_operator.World.Requests.{Sys, get_object}
use k4all_operator.World.Emits.{Emitted, here, more, IsRead}

abbrev pub argocd_passes : ArgocdReconciler → Change → NamespacedName → Bool
argocd_passes r = passes r.config_map_name r.config_map_ns

abbrev pub virt_passes : VirtReconciler → Change → NamespacedName → Bool
virt_passes r = passes r.config_map_name r.config_map_ns

-- an object is dropped for its name or its namespace, or since it was deleted
dropped_cases :
    (name ns : String) (change : Change) (object : NamespacedName)
    → passes name ns change object ≡ false
    → ((object.name == name && object.namespace_ == ns) ≡ false) ⊎ (change ≡ deleted)
unfolding passes
dropped_cases name ns created object dropped = inl dropped
dropped_cases name ns updated object dropped = inl dropped
dropped_cases name ns deleted object dropped = inr refl

module _ (E : Env) where
  -- the API server answers that there is no such ConfigMap
  abbrev pub IsGone : NamespacedName → Sys E.State E.Unstructured → Type 0
  IsGone object s =
      (e : Error) × ((E.respond (get_object Kind.config_map object) s.state).0 ≡ err e)
      × (is_not_found e ≡ true)

  -- it ended with this result, and called nothing but reads
  abbrev pub OnlyReads : {A : Type 0} → Program E A → A → Sys E.State E.Unstructured → Type 0
  OnlyReads m a s = ((m s).0 ≡ ok a) × Emitted IsRead s.trace (m s).1.trace

  argocd-OnlyReads :
      (r : ArgocdReconciler) (change : Change) (object : NamespacedName) (callbacks : Callbacks)
      (s : Sys E.State E.Unstructured)
      → argocd_passes r change object ≡ false
      → (change ≡ deleted → IsGone object s)
      → OnlyReads (reconcile_argocd E r callbacks object) (ended callbacks) s
  unfolding reconcile_argocd handle perform
  argocd-OnlyReads r change object callbacks s dropped gone =
      elim (Bool-cases (object.name == r.config_map_name && object.namespace_ == r.config_map_ns)) [
        | inr other ↦ rw other (refl, here)
        | inl same ↦ elim (dropped_cases r.config_map_name r.config_map_ns change object dropped) [
          | inl other ↦ ground (arith, same, other)
          | inr last ↦
              let (e, answer, missing) = gone last in
              rw (same, answer, missing) (refl, more _ tt here)
        ]
      ]

  virt-OnlyReads :
      (r : VirtReconciler) (fuel ticks : ℕ) (change : Change) (object : NamespacedName)
      (s : Sys E.State E.Unstructured)
      → virt_passes r change object ≡ false
      → (change ≡ deleted → IsGone object s)
      → OnlyReads (Reconcile.reconcile E r fuel ticks object) finished s
  unfolding Reconcile.reconcile handle perform
  virt-OnlyReads r fuel ticks change object s dropped gone =
      elim (Bool-cases (object.name == r.config_map_name && object.namespace_ == r.config_map_ns)) [
        | inr other ↦ rw other (refl, here)
        | inl same ↦ elim (dropped_cases r.config_map_name r.config_map_ns change object dropped) [
          | inl other ↦ ground (arith, same, other)
          | inr last ↦
              let (e, answer, missing) = gone last in
              rw (same, answer, missing) (refl, more _ tt here)
        ]
      ]

  -- If the event filters of both features' controllers drop an event of a ConfigMap, and a
  -- ConfigMap that was deleted is not found any more, then its reconciliations would end at once,
  -- without an error or a retry, and call nothing but reads.
  pub dropped-OnlyReads :
      (argocd : ArgocdReconciler) (virt : VirtReconciler) (fuel ticks : ℕ) (change : Change)
      (object : NamespacedName) (callbacks : Callbacks) (s : Sys E.State E.Unstructured)
      → argocd_passes argocd change object ≡ false
      → virt_passes virt change object ≡ false
      → (change ≡ deleted → IsGone object s)
      → OnlyReads (reconcile_argocd E argocd callbacks object) (ended callbacks) s
        × OnlyReads (Reconcile.reconcile E virt fuel ticks object) finished s
  dropped-OnlyReads argocd virt fuel ticks change object callbacks s no_argocd no_virt gone = (
    argocd-OnlyReads argocd change object callbacks s no_argocd gone,
    virt-OnlyReads virt fuel ticks change object s no_virt gone,
  )
