-- ===== src/Argocd/Content.antt =====
-- A reconciliation of Argo CD writes no file of the host.
use k4all_operator.Argocd.Calls.{Any, store-Any, HelmCalls, reconcile_config-Stays}
use k4all_operator.Argocd.Reconcile.{reconcile_config, reconcile_config_map, reconcile_argocd}
use k4all_operator.Argocd.Types.{ArgocdReconciler, Callbacks}
use k4all_operator.Base.{refl, String, Option, ◌==◌, Bool, not, ◌&&◌}
use k4all_operator.Base.Dict.{lookup}
use k4all_operator.Base.Keeps.{Keeps, Keeps-pure, Keeps-if, Keeps-handle, Keeps-lift, Keeps-option}
use k4all_operator.Config.Types.{Config}
use k4all_operator.Controller.ConfigSyncer.{made}
use k4all_operator.World.{Env, perform}
use k4all_operator.World.FileSystem.{IsFileSystem, IsHost, LeavesFiles}
use k4all_operator.World.Objects.{NamespacedName, ConfigMap, Kind}
use k4all_operator.World.Polling.{IsPolling}
use k4all_operator.World.Requests.{Request, Sys, get_object}
use k4all_operator.World.Content.{Content, Keeps-Content, perform-Content}

HelmCalls-LeavesFiles :
    {U : Type 0} (r : ArgocdReconciler) (enabled : Bool) (q : Request U)
    → HelmCalls Any r enabled q
    → LeavesFiles q
HelmCalls-LeavesFiles r enabled (Request.get_object _ _) h = tt
HelmCalls-LeavesFiles r enabled (Request.list_pods _ _) h = tt
HelmCalls-LeavesFiles r enabled (Request.pod_logs _ _ _) h = tt
HelmCalls-LeavesFiles r enabled (Request.create_object Kind.job _) h = tt
HelmCalls-LeavesFiles r enabled (Request.create_object Kind.config_map _) h = tt
HelmCalls-LeavesFiles r enabled (Request.update_object Kind.config_map _) h = tt
HelmCalls-LeavesFiles r enabled (Request.delete_object _ _) h = tt
HelmCalls-LeavesFiles r enabled _ h = absurd h

-- What the read of the ConfigMap and every configuration keep, a reconciliation keeps.
pub reconcile_argocd-Keeps :
    (E : Env) (r : ArgocdReconciler) (callbacks : Callbacks) (req : NamespacedName)
    (I : Sys E.State E.Unstructured → Type 0)
    → Keeps {A = ConfigMap} I (perform E (get_object Kind.config_map req))
    → ((config : Config) → Keeps I (reconcile_config E r callbacks config))
    → Keeps I (reconcile_argocd E r callbacks req)
unfolding reconcile_argocd reconcile_config_map
reconcile_argocd-Keeps E r callbacks req I read each =
    Keeps-if (not (req.name == r.config_map_name && req.namespace_ == r.config_map_ns)) _ _
      (λ _. Keeps-pure _)
      λ _.
        Keeps-handle _ _ _ read (λ e. Keeps-pure _)
          λ cm.
            Keeps-option (lookup "config.json" (made cm.entries)) _ _ (Keeps-pure _)
              λ text. Keeps-handle _ _ _ (Keeps-lift (E.unmarshal text)) (λ e. Keeps-pure _) each

module _ (E : Env) (F : IsFileSystem E) (H : IsHost E F) (path : String) where
  pub reconcile_argocd-Content :
      (W : IsPolling E) (r : ArgocdReconciler) (callbacks : Callbacks) (req : NamespacedName)
      (held : Option String)
      → Keeps (Content E F H path held) (reconcile_argocd E r callbacks req)
  reconcile_argocd-Content W r callbacks req held =
      reconcile_argocd-Keeps E r callbacks req (Content E F H path held)
        (perform-Content E F H path held (get_object Kind.config_map req) tt)
        λ config.
          let enabled = config.features.argocd.enabled == "true" in
          Keeps-Content E F H path (HelmCalls Any r enabled) held _
            (HelmCalls-LeavesFiles r enabled)
            λ old.
              reconcile_config-Stays E W Any r enabled old (store-Any E r enabled old) config
                callbacks refl
