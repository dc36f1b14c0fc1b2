-- ===== src/System/Steps.antt =====
-- The parts of the operator, one after the other in any order, and what the configuration file holds
-- in between.
use k4all_operator.Argocd.Reconcile.{reconcile_argocd}
use k4all_operator.Argocd.Types.{Callbacks}
use k4all_operator.Base.{ℕ, ◌≡◌, refl, String, Option, inl}
use k4all_operator.Controller.ClusterConfigReconciler.{reconcile, setup_with_manager}
use k4all_operator.Controller.ConfigSyncer.{sync_config}
use k4all_operator.Main.{
  cluster_config_reconciler, Flags, config_syncer, argocd_reconciler, virt_reconciler,
  host_config_file_path,
}
use k4all_operator.System.Follow.{registered}
use k4all_operator.Virt.Reconcile
use k4all_operator.Virt.Reconcile.Content.{reconcile_virt-Content}
use k4all_operator.World.{Env}
use k4all_operator.World.FileSystem.{IsFileSystem, IsHost}
use k4all_operator.World.Objects.{NamespacedName}
use k4all_operator.World.Polling.{IsPolling}
use k4all_operator.World.Requests.{Sys}
use k4all_operator.Argocd.Content.{reconcile_argocd-Content}
use k4all_operator.Controller.ClusterConfigReconciler.Whole.{
  IsKnown, IsKnown-same, Keeps-IsKnown, sync_config-Content, reconcile-Known,
}

module _ (E : Env) (F : IsFileSystem E) (flags : Flags) where
  -- One run of a part of the operator, whatever it returns; or anything else that leaves the file.
  pub data Step (s : Sys E.State E.Unstructured) : Sys E.State E.Unstructured → Type 0 where
    reconciles : (req : NamespacedName) → Step s (reconcile E (registered flags) req s).1
    argocd_reconciles :
        (callbacks : Callbacks) (req : NamespacedName)
        → Step s (reconcile_argocd E (argocd_reconciler flags) callbacks req s).1
    virt_reconciles :
        (fuel ticks : ℕ) (req : NamespacedName)
        → Step s (Reconcile.reconcile E (virt_reconciler flags) fuel ticks req s).1
    syncs : Step s (sync_config E config_syncer s).1
    elsewhere :
        (t : Sys E.State E.Unstructured)
        → F.content t.state host_config_file_path ≡ F.content s.state host_config_file_path
        → Step s t

  pub data Reachable (s : Sys E.State E.Unstructured) : Sys E.State E.Unstructured → Type 0 where
    started : Reachable s s
    stepped : {t u : Sys E.State E.Unstructured} → Reachable s t → Step t u → Reachable s u

  module _ (H : IsHost E F) (W : IsPolling E) (first : Option String) where
    abbrev Good : Sys E.State E.Unstructured → Type 0
    Good = IsKnown E F H host_config_file_path first

    Step-Good : {s t : Sys E.State E.Unstructured} → Step s t → Good s → Good t
    unfolding setup_with_manager cluster_config_reconciler
    Step-Good {s} (reconciles req) h = (reconcile-Known E F H (registered flags) first req).at s h
    Step-Good {s} (argocd_reconciles callbacks req) h =
        (Keeps-IsKnown E F H host_config_file_path first _ (
            reconcile_argocd-Content E F H host_config_file_path W (argocd_reconciler flags)
              callbacks req)).at
          s h
    Step-Good {s} (virt_reconciles fuel ticks req) h =
        (Keeps-IsKnown E F H host_config_file_path first _ (
            reconcile_virt-Content E F H host_config_file_path W (virt_reconciler flags) fuel ticks
              req)).at
          s h
    Step-Good {s} syncs h =
        (Keeps-IsKnown E F H host_config_file_path first _
            (λ held. sync_config-Content E F H host_config_file_path held config_syncer)).at
          s h
    Step-Good {s} (elsewhere t same) h = IsKnown-same E F H host_config_file_path first s t same h

    Reachable-Good : {s t : Sys E.State E.Unstructured} → Reachable s t → Good s → Good t
    Reachable-Good started h = h
    Reachable-Good (stepped before step) h = Step-Good step (Reachable-Good before h)

  -- Whatever order the reconciliations of resources and of the features and the runs of the syncer come
  -- in, however each of them ends, and whatever else happens that leaves the configuration file
  -- alone: in every state between them the file holds what it held at the start, or the encoded
  -- configuration of some spec as a whole.
  pub Reachable-IsKnown :
      (H : IsHost E F) (W : IsPolling E) (s t : Sys E.State E.Unstructured)
      → Reachable s t
      → IsKnown E F H host_config_file_path (F.content s.state host_config_file_path) t
  Reachable-IsKnown H W s t reached =
      Reachable-Good H W (F.content s.state host_config_file_path) reached (inl refl)
