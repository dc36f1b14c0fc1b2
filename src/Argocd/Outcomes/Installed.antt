-- ===== src/Argocd/Outcomes/Installed.antt =====
-- What was done when a reconciliation of an enabled Argo CD ends.
use k4all_operator.Argocd.Reconcile.{
  helm_command, store, after_install, install, ensure_installed, apply_config,
}
use k4all_operator.Argocd.Types.{ArgocdReconciler, Callbacks, status_args, install_args}
use k4all_operator.Argocd.Outcomes.{
  Succeeded, Saved, EndsIn, Saved-same, store-Saved, helm_command-Succeeded, version, updated,
}
use k4all_operator.Base.{
  String, ◌==◌, ◌≡◌, refl, subst, ◌⊎◌, inl, inr, none, some, Option-cases, true, arith,
}
use k4all_operator.Base.Dict.{Dict}
use k4all_operator.Base.Effect.{◌>>=◌}
use k4all_operator.Base.Triple.{bind-ok}
use k4all_operator.Config.Types.{Config}
use k4all_operator.JobRunner.Commands.{Ran}
use k4all_operator.JobRunner.Commands.HostInfo.{HostInfo, argocd_host_info}
use k4all_operator.World.{Env, Json, Values}
use k4all_operator.Argocd.Calls.{Any, store-Any, HelmCalls, host_info-Stays, helm_command-Stays}
use k4all_operator.World.Emits.{Origin, here}
use k4all_operator.World.Emits.Course.{Course, arrived, from_state}
use k4all_operator.World.Polling.{IsPolling}
use k4all_operator.World.Requests.{Sys}

module _ (E : Env) (r : ArgocdReconciler) (W : IsPolling E) where
  after_install-Saved :
      (values : Values) (ran : Ran) (s : Sys E.State E.Unstructured)
      → EndsIn E r (after_install E r values ran) s
      → (ran.error ≡ none) × Saved E r values s (after_install E r values ran s).1
  unfolding after_install
  after_install-Saved values ran s (rec, done, fine) = elim (Option-cases ran.error) [
    | inl quiet ↦
        let same : after_install E r values ran s ≡ store E r values ran.output_callbacks s =
          ground (arith, quiet) in
        (
          quiet,
          Saved-same E r values s _ _ same (
              store-Saved E r values ran.output_callbacks s
                (rec, ground (arith, same, done), fine)),
        )
    | inr (e, failed) ↦ ground (arith, failed, done, fine)
  ]

  install-Succeeded :
      (version : String) (values : Values) (info : HostInfo) (s : Sys E.State E.Unstructured)
      → EndsIn E r (install E r version values info) s
      → (t : Sys E.State E.Unstructured) × Succeeded E r
          (install_args r version info.ip info.fqdn)
          s
          t
        × Saved E r values t (install E r version values info s).1
  unfolding install
  install-Succeeded version values info s (rec, done, fine) = elim (Option-cases info.error) [
    | inr (e, failed) ↦ ground (arith, failed, done, fine)
    | inl quiet ↦
        let args = install_args r version info.ip info.fqdn in
        let run = helm_command E r args info.output_callbacks in
        let same : install E r version values info s ≡ (run >>= after_install E r values) s =
          ground (arith, quiet) in
        let (ran, got, rest, at_) =
          bind-ok run (after_install E r values) s rec (ground (arith, same, done)) in
        let (well, saved) = after_install-Saved values ran (run s).1 (rec, rest, fine) in
        (
          (run s).1,
          helm_command-Succeeded E r W args info.output_callbacks ran s got well,
          Saved-same E r values (run s).1 _ _ same (subst (Saved E r values (run s).1) at_ saved),
        )
  ]

  abbrev along :
      Sys E.State E.Unstructured → Sys E.State E.Unstructured → Origin E (HelmCalls Any r true)
  along first s = record (from_state E (HelmCalls Any r true) first) { trace = s.trace }

  -- on the way from the first state, the release was upgraded or installed, up to the last state
  abbrev pub Upgraded : String → Sys E.State E.Unstructured → Sys E.State E.Unstructured → Type 0
  Upgraded version first last =
      (ip : String) × (fqdn : String) × (middle : Sys E.State E.Unstructured) × Course E first
        middle
      × Succeeded E r (install_args r version ip fqdn) middle last

  ensure_installed-Succeeded :
      (version : String) (values : Values) (status : Ran) (first s : Sys E.State E.Unstructured)
      → Course E first s
      → EndsIn E r (ensure_installed E r version values status) s
      → (t : Sys E.State E.Unstructured) × (((status.error ≡ none) × (s ≡ t))
          ⊎ Upgraded version first t)
        × Saved E r values t (ensure_installed E r version values status s).1
  unfolding ensure_installed
  ensure_installed-Succeeded version values status first s to (rec, done, fine) =
      let ask = argocd_host_info E r.config_map_ns r.tools_image status.output_callbacks in
      elim (Option-cases status.error) [
        | inl quiet ↦
            let same : ensure_installed E r version values status s
                ≡ store E r values status.output_callbacks s =
              ground (arith, quiet) in
            (
              s,
              inl (quiet, refl),
              Saved-same E r values s _ _ same (
                  store-Saved E r values status.output_callbacks s
                    (rec, ground (arith, same, done), fine)),
            )
        | inr (e, failed) ↦
            let same : ensure_installed E r version values status s
                ≡ (ask >>= install E r version values) s =
              ground (arith, failed) in
            let (info, got, rest, at_) =
              bind-ok ask (install E r version values) s rec (ground (arith, same, done)) in
            let (t, well, saved) =
              install-Succeeded version values info (ask s).1 (rec, rest, fine) in
            let on =
              ((host_info-Stays E W Any r true (along first s) (store-Any E r true (along first s))
                  status.output_callbacks).at
                s (here, to)).1 in
            (
              t,
              inr (info.ip, info.fqdn, (ask s).1, on, well),
              Saved-same E r values t _ _ same (subst (Saved E r values t) at_ saved),
            )
      ]

  module _ (config : Config) (callbacks : Callbacks) (values : Dict Json) where
    -- Where the feature is enabled and managed, a reconciliation from the read values on ends
    -- without an error or a retry only if helm's status of the release, asked for first, or else on
    -- its way an upgrade of the release to the wanted version was run by a job that was seen
    -- complete, with no output on stderr; and all that was done after it was to save the values,
    -- with the version and the flags.
    pub apply_config-Installed :
        (s : Sys E.State E.Unstructured)
        → (config.features.argocd.enabled == "true") ≡ true
        → EndsIn E r (apply_config E r config callbacks (some values)) s
        → (t : Sys E.State E.Unstructured) × (Succeeded E r (status_args r) s t
            ⊎ Upgraded (version config) s t)
          × Saved E r
              (updated config values true)
              t
              (apply_config E r config callbacks (some values) s).1
    unfolding apply_config
    apply_config-Installed s enabled (rec, done, fine) =
        let ask = helm_command E r (status_args r) callbacks in
        let same : apply_config E r config callbacks (some values) s
            ≡ (ask >>= ensure_installed E r (version config) (updated config values true)) s =
          ground (arith, enabled) in
        let (status, got, rest, at_) =
          bind-ok ask (ensure_installed E r (version config) (updated config values true)) s rec
            (ground (arith, same, done)) in
        let on =
          ((helm_command-Stays E W Any r true (along s s) (store-Any E r true (along s s))
              (status_args r) callbacks).at
            s (here, arrived)).1 in
        let (t, how, saved) =
          ensure_installed-Succeeded (version config) (updated config values true) status s
            (ask s).1 on (rec, rest, fine) in
        (
          t,
          elim how [
            | inl (quiet, there) ↦ inl (
                subst (Succeeded E r (status_args r) s) there
                  (helm_command-Succeeded E r W (status_args r) callbacks status s got quiet))
            | inr well ↦ inr well
          ],
          Saved-same E r (updated config values true) t _ _ same
              (subst (Saved E r (updated config values true) t) at_ saved),
        )
