-- ===== src/Argocd/Apart.antt =====
-- A reconciliation of Argo CD leaves every ConfigMap but the one of its values as it is.
use k4all_operator.Argocd.Calls.{HelmCalls, reconcile_config-Stays}
use k4all_operator.Argocd.Content.{reconcile_argocd-Keeps}
use k4all_operator.Argocd.Reconcile.{argocd_values_key, store, reconcile_argocd}
use k4all_operator.Argocd.Types.{ArgocdReconciler, Callbacks}
use k4all_operator.Base.{
  ◌≡◌, ◌≢◌, refl, sym, ap, ◌∙◌, ◌==◌, Bool, Bool-cases, Option, some, inl, inr, String, [], ◌∷◌,
}
use k4all_operator.Base.Dict.{insert}
use k4all_operator.Base.Effect.{is_not_found, Result-cases, handle}
use k4all_operator.Base.Keeps.{Keeps, Keeps-pure, Keeps-handle, Keeps-bind, Keeps-lift}
use k4all_operator.Controller.ConfigSyncer.{made}
use k4all_operator.Controller.Values.{store_values, save_values}
use k4all_operator.World.{Env, Values, perform}
use k4all_operator.World.ConfigMaps.{IsConfigMapStore, IsSeparate, Leaves, config_map_key}
use k4all_operator.World.Emits.{Origin, Since, here, more}
use k4all_operator.World.Objects.{NamespacedName, ConfigMap, Kind}
use k4all_operator.World.Polling.{IsPolling}
use k4all_operator.World.Requests.{Request, Sys, get_object, create_object, update_object}

module _ (E : Env) (M : IsConfigMapStore E) (r : ArgocdReconciler) where
  abbrev key : NamespacedName
  key = argocd_values_key E r

  -- the ConfigMap of the values
  abbrev Own : ConfigMap → Type 0
  Own cm = config_map_key cm ≡ key

  module _ (enabled : Bool) (old : Origin E (HelmCalls Own r enabled)) where
    abbrev Stays : Sys E.State E.Unstructured → Type 0
    Stays = Since (HelmCalls Own r enabled) old

    store_values-Own : (text : String) → Keeps Stays (store_values E key text)
    unfolding store_values handle perform
    store_values-Own text = record {
      at = λ s h.
          let read = old.kept (get_object Kind.config_map key) s tt h.1 in
          elim (Result-cases (E.respond (get_object Kind.config_map key) s.state).0) [
            | inl (cm, got) ↦
                let new = record cm {
                  entries = some (insert "values.json" text (made cm.entries));
                } in
                let named = M.get-named key cm s.state got in
                rw got (
                  more _ named (more _ tt h.0),
                  old.kept (update_object Kind.config_map new) _ named (rw got at read),
                )
            | inr (inl (e, got)) ↦ elim (Bool-cases (is_not_found e)) [
              | inl missing ↦
                  let new : ConfigMap = record {
                    name = key.name;
                    namespace_ = key.namespace_;
                    entries = some (("values.json", text) ∷ []);
                  } in
                  rw (got, missing)
                    (
                      more _ refl (more _ tt h.0),
                      old.kept (create_object Kind.config_map new) _ refl (rw got at read),
                    )
              | inr other ↦ rw (got, other) (more _ tt h.0, rw got at read)
            ]
            | inr (inr (m, got)) ↦ rw got (more _ tt h.0, rw got at read)
          ];
    }

    store-Own : (values : Values) (callbacks : Callbacks) → Keeps Stays (store E r values callbacks)
    unfolding store save_values
    store-Own values callbacks =
        Keeps-handle _ _ _ (Keeps-bind _ _ (Keeps-lift (E.marshal_values values)) store_values-Own)
          (λ e. Keeps-pure _) (λ _. Keeps-pure _)

module _ (E : Env) (M : IsConfigMapStore E) (B : IsSeparate E M) (r : ArgocdReconciler)
    (elsewhere : NamespacedName) (ne : argocd_values_key E r ≢ elsewhere)
    (other_namespace : r.helm_release_ns ≢ elsewhere.namespace_) where
  HelmCalls-Leaves :
      {U : Type 0} (enabled : Bool) (q : Request U)
      → HelmCalls (Own E M r) r enabled q
      → Leaves elsewhere q
  HelmCalls-Leaves enabled (Request.get_object _ _) h = tt
  HelmCalls-Leaves enabled (Request.list_pods _ _) h = tt
  HelmCalls-Leaves enabled (Request.pod_logs _ _ _) h = tt
  HelmCalls-Leaves enabled (Request.create_object Kind.job _) h = tt
  HelmCalls-Leaves enabled (Request.create_object Kind.config_map cm) h = λ same. ne (sym h ∙ same)
  HelmCalls-Leaves enabled (Request.update_object Kind.config_map cm) h = λ same. ne (sym h ∙ same)
  HelmCalls-Leaves enabled (Request.delete_object Kind.job _) h = tt
  HelmCalls-Leaves enabled (Request.delete_object Kind.pod _) h = tt
  HelmCalls-Leaves enabled (Request.delete_object Kind.namespace_ n) h =
      λ same. other_namespace (sym (ap (λ (m : NamespacedName). m.name) h.1) ∙ same)
  HelmCalls-Leaves enabled _ h = absurd h

  abbrev Stored : Option ConfigMap → Sys E.State E.Unstructured → Type 0
  Stored held s = M.stored s.state elsewhere ≡ held

  read-Stored :
      (held : Option ConfigMap) (req : NamespacedName)
      → Keeps {A = ConfigMap} (Stored held) (perform E (get_object Kind.config_map req))
  unfolding perform
  read-Stored held req = record {
    at = λ s h. B.stored-left (get_object Kind.config_map req) elsewhere s.state tt ∙ h;
  }

  -- however the reconciliation ends
  pub reconcile_argocd-Stored :
      (W : IsPolling E) (callbacks : Callbacks) (req : NamespacedName) (held : Option ConfigMap)
      → Keeps (Stored held) (reconcile_argocd E r callbacks req)
  reconcile_argocd-Stored W callbacks req held =
      reconcile_argocd-Keeps E r callbacks req (Stored held) (read-Stored held req) λ config.
        let enabled = config.features.argocd.enabled == "true" in
        record {
          at = λ s h.
              let old : Origin E (HelmCalls (Own E M r) r enabled) = record {
                trace = s.trace;
                holds = Stored held;
                kept = λ q t allowed k.
                    B.stored-left q elsewhere t.state (HelmCalls-Leaves enabled q allowed) ∙ k;
                kept_clock = λ t k. B.stored-clock elsewhere t.state ∙ k;
                kept_elapse = λ n t k. B.stored-elapse n elsewhere t.state ∙ k;
              } in
              ((reconcile_config-Stays E W (Own E M r) r enabled old (store-Own E M r enabled old)
                  config callbacks refl).at
                s (here, h)).1;
        }
