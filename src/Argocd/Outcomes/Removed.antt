-- ===== src/Argocd/Outcomes/Removed.antt =====
-- What was done when a reconciliation of a disabled Argo CD ends.
use k4all_operator.Argocd.Reconcile.{
  helm_command, store, after_uninstall, ensure_removed, apply_config,
}
use k4all_operator.Argocd.Types.{ArgocdReconciler, Callbacks, status_args, uninstall_args}
use k4all_operator.Argocd.Outcomes.{
  Succeeded, Saved, EndsIn, Refused, NamespaceDeleted, Saved-same, store-Saved,
  helm_command-Succeeded, updated,
}
use k4all_operator.Base.{
  ◌==◌, ◌≡◌, ◌≢◌, refl, subst, ◌⊎◌, inl, inr, none, some, Option-cases, false, arith,
}
use k4all_operator.Base.Dict.{Dict}
use k4all_operator.Base.Effect.{Result-cases, handle, ◌>>=◌}
use k4all_operator.Base.Triple.{bind-ok}
use k4all_operator.Config.Types.{Config}
use k4all_operator.JobRunner.Commands.{Ran}
use k4all_operator.World.{Env, Json, Values, perform}
use k4all_operator.World.Objects.{Kind}
use k4all_operator.World.Polling.{IsPolling}
use k4all_operator.World.Requests.{Sys, delete_object}

module _ (E : Env) (r : ArgocdReconciler) (W : IsPolling E) where
  after_uninstall-Saved :
      (values : Values) (ran : Ran) (s : Sys E.State E.Unstructured)
      → EndsIn E r (after_uninstall E r values ran) s
      → (ran.error ≡ none)
        × (t : Sys E.State E.Unstructured) × NamespaceDeleted E r s t
        × Saved E r values t (after_uninstall E r values ran s).1
  unfolding after_uninstall handle
  after_uninstall-Saved values ran s (rec, done, fine) =
      let gone =
        perform E
          (delete_object Kind.namespace_ (record { name = r.helm_release_ns; namespace_ = "" })) in
      elim (Option-cases ran.error) [
        | inr (e, failed) ↦ ground (arith, failed, done, fine)
        | inl quiet ↦ elim (Result-cases (gone s).0) [
          | inr (inl (e, got)) ↦ ground (arith, quiet, got, done, fine)
          | inr (inr (m, got)) ↦ ground (arith, quiet, got, done)
          | inl (_, got) ↦
              let same : after_uninstall E r values ran s
                  ≡ store E r values ran.output_callbacks (gone s).1 =
                ground (arith, quiet, got) in
              (
                quiet,
                (gone s).1,
                λ i. (got i, (gone s).1),
                Saved-same E r values (gone s).1 _ _ same (
                    store-Saved E r values ran.output_callbacks (gone s).1
                      (rec, ground (arith, same, done), fine)),
              )
        ]
      ]

  -- from the first state to the last, helm removed the release, and its namespace was deleted
  abbrev pub Uninstalled : Sys E.State E.Unstructured → Sys E.State E.Unstructured → Type 0
  Uninstalled first last =
      (middle : Sys E.State E.Unstructured) × Succeeded E r (uninstall_args r) first middle
      × NamespaceDeleted E r middle last

  ensure_removed-Uninstalled :
      (values : Values) (status : Ran) (s : Sys E.State E.Unstructured)
      → EndsIn E r (ensure_removed E r values status) s
      → (t : Sys E.State E.Unstructured) × (((status.error ≢ none) × (s ≡ t))
          ⊎ ((status.error ≡ none) × Uninstalled s t))
        × Saved E r values t (ensure_removed E r values status s).1
  unfolding ensure_removed
  ensure_removed-Uninstalled values status s (rec, done, fine) =
      let run = helm_command E r (uninstall_args r) status.output_callbacks in
      elim (Option-cases status.error) [
        | inr (e, failed) ↦
            let same : ensure_removed E r values status s
                ≡ store E r values status.output_callbacks s =
              ground (arith, failed) in
            (
              s,
              inl (λ quiet. ground (arith, failed, quiet), refl),
              Saved-same E r values s _ _ same (
                  store-Saved E r values status.output_callbacks s
                    (rec, ground (arith, same, done), fine)),
            )
        | inl quiet ↦
            let same : ensure_removed E r values status s ≡ (run >>= after_uninstall E r values) s =
              ground (arith, quiet) in
            let (ran, got, rest, at_) =
              bind-ok run (after_uninstall E r values) s rec (ground (arith, same, done)) in
            let (well, t, gone, saved) =
              after_uninstall-Saved values ran (run s).1 (rec, rest, fine) in
            (
              t,
              inr (
                quiet,
                (
                  (run s).1,
                  helm_command-Succeeded E r W (uninstall_args r) status.output_callbacks ran s got
                      well,
                  gone,
                ),
              ),
              Saved-same E r values t _ _ same (subst (Saved E r values t) at_ saved),
            )
      ]

  -- from the first state to the last, helm gave the status of the release, and it was uninstalled
  abbrev pub Removed : Sys E.State E.Unstructured → Sys E.State E.Unstructured → Type 0
  Removed first last =
      (middle : Sys E.State E.Unstructured) × Succeeded E r (status_args r) first middle
      × Uninstalled middle last

  module _ (config : Config) (callbacks : Callbacks) (values : Dict Json) where
    -- Where the feature is managed and not enabled, a reconciliation from the read values on ends
    -- without an error or a retry only if helm's status of the release, asked for first, returned
    -- an error; or the status, and then the removal of the release, were run by jobs that were seen
    -- complete, with no output on stderr, and then the namespace of the release was deleted. All
    -- that was done after it was to save the values, with the version and the flags.
    pub apply_config-Removed :
        (s : Sys E.State E.Unstructured)
        → (config.features.argocd.enabled == "true") ≡ false
        → EndsIn E r (apply_config E r config callbacks (some values)) s
        → (t : Sys E.State E.Unstructured) × (Refused E r (status_args r) s t ⊎ Removed s t)
          × Saved E r
              (updated config values false)
              t
              (apply_config E r config callbacks (some values) s).1
    unfolding apply_config
    apply_config-Removed s disabled (rec, done, fine) =
        let ask = helm_command E r (status_args r) callbacks in
        let same : apply_config E r config callbacks (some values) s
            ≡ (ask >>= ensure_removed E r (updated config values false)) s =
          ground (arith, disabled) in
        let (status, got, rest, at_) =
          bind-ok ask (ensure_removed E r (updated config values false)) s rec
            (ground (arith, same, done)) in
        let (t, how, saved) =
          ensure_removed-Uninstalled (updated config values false) status (ask s).1
            (rec, rest, fine) in
        (
          t,
          elim how [
            | inl (failed, there) ↦ inl (callbacks, status, λ i. (got i, there i), failed)
            | inr (quiet, well) ↦ inr (
              (ask s).1,
              helm_command-Succeeded E r W (status_args r) callbacks status s got quiet,
              well,
            )
          ],
          Saved-same E r (updated config values false) t _ _ same
              (subst (Saved E r (updated config values false) t) at_ saved),
        )
