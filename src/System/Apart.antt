-- ===== src/System/Apart.antt =====
-- What the features leave to one another.
use k4all_operator.Argocd.Reconcile.{argocd_values_key, reconcile_argocd}
use k4all_operator.Argocd.Apart.{reconcile_argocd-Stored}
use k4all_operator.Argocd.Types.{Callbacks}
use k4all_operator.Base.{◌≡◌, ◌≢◌, refl, ap, eq_iff}
use k4all_operator.Controller.Values.Elsewhere.{save_values-elsewhere}
use k4all_operator.Main.{Flags, argocd_reconciler, virt_reconciler}
use k4all_operator.System.Follow.{shared_key}
use k4all_operator.Virt.Reconcile.{virt_values_key, save_virt_values}
use k4all_operator.World.{Env, Values}
use k4all_operator.World.ConfigMaps.{IsConfigMapStore, IsSeparate}
use k4all_operator.World.Objects.{NamespacedName}
use k4all_operator.World.Polling.{IsPolling}
use k4all_operator.World.Requests.{Sys}

other_name : (a b : NamespacedName) → a.name ≢ b.name → a ≢ b
other_name a b ne = λ same. ne (ap (λ (n : NamespacedName). n.name) same)

module _ (E : Env) (M : IsConfigMapStore E) (B : IsSeparate E M) (flags : Flags) where
  abbrev argocd_key : NamespacedName
  argocd_key = argocd_values_key E (argocd_reconciler flags)

  abbrev virt_key : NamespacedName
  virt_key = virt_values_key E (virt_reconciler flags)

  -- this ConfigMap is stored as it was
  abbrev pub Left :
      NamespacedName → Sys E.State E.Unstructured → Sys E.State E.Unstructured → Type 0
  Left key s t = M.stored t.state key ≡ M.stored s.state key

  -- However a reconciliation of Argo CD ends, it leaves the ConfigMap of the configuration and the
  -- one of the virtualisation feature's values as they are. However saving the virtualisation
  -- feature's values ends, it leaves the ConfigMap of the configuration and the one of Argo CD's
  -- values as they are.
  pub features_apart :
      (W : IsPolling E) (callbacks : Callbacks) (req : NamespacedName) (values : Values)
      (s : Sys E.State E.Unstructured)
      → (Left shared_key s (reconcile_argocd E (argocd_reconciler flags) callbacks req s).1
          × Left virt_key s (reconcile_argocd E (argocd_reconciler flags) callbacks req s).1)
        × (Left shared_key s (save_virt_values E (virt_reconciler flags) values s).1
            × Left argocd_key s (save_virt_values E (virt_reconciler flags) values s).1)
  unfolding argocd_reconciler virt_reconciler
  features_apart W callbacks req values s =
      let reconciled : (other : NamespacedName)
          → argocd_key.name ≢ other.name
          → "argocd" ≢ other.namespace_
          → Left other s (reconcile_argocd E (argocd_reconciler flags) callbacks req s).1 =
        λ other ne away.
          (reconcile_argocd-Stored E M B (argocd_reconciler flags) other
              (other_name argocd_key other ne) away W callbacks req (M.stored s.state other)).at
            s refl in
      let saved : (other : NamespacedName)
          → virt_key.name ≢ other.name
          → Left other s (save_virt_values E (virt_reconciler flags) values s).1 =
        λ other ne.
          save_values-elsewhere E M B virt_key other (other_name virt_key other ne) values s in
      (
        (
          reconciled shared_key (λ h. cc ((eq_iff _ _).1 h)) (λ h. cc ((eq_iff _ _).1 h)),
          reconciled virt_key (λ h. cc ((eq_iff _ _).1 h)) (λ h. cc ((eq_iff _ _).1 h)),
        ),
        (
          saved shared_key (λ h. cc ((eq_iff _ _).1 h)),
          saved argocd_key (λ h. cc ((eq_iff _ _).1 h)),
        ),
      )
