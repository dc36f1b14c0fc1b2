-- ===== src/Downloader/Ready/Deployed.antt =====
-- When the wait for KubeVirt ends.
use k4all_operator.Base.{
  ℕ, zero, suc, ◌≡◌, subst, String, Option, none, some, [], ◌∷◌, arith, eq_iff, inl, inr, true,
  false,
}
use k4all_operator.Base.Effect.{Result, Result-cases, ok, err, panic, handle, ◌>>=◌}
use k4all_operator.Downloader.Ready.{
  kubevirt_gvk, kubevirt_name, phase_seen, sees_deployed, wait_for_kubevirt_ready,
}
use k4all_operator.World.{Env, perform, pause}
use k4all_operator.World.Objects.{Kind}
use k4all_operator.World.Requests.{Sys, get_object}

module _ (E : Env) where
  -- The last call of a run that ends in `final` read KubeVirt's resource in the phase "Deployed".
  abbrev pub Deployed : Sys E.State E.Unstructured → Type 0
  Deployed final =
      (before : Sys E.State E.Unstructured) × (kubevirt : E.Unstructured) × (perform E
          (get_object (Kind.custom kubevirt_gvk) kubevirt_name) before
        ≡ (ok kubevirt, final))
      × (E.nested_string kubevirt ("status" ∷ "phase" ∷ []) ≡ ok (some "Deployed"))

  phase_seen_lem :
      (read : Result (Option String)) (s : Sys E.State E.Unstructured)
      → (phase_seen E read s).0 ≡ ok true
      → (read ≡ ok (some "Deployed")) × ((phase_seen E read s).1 ≡ s)
  unfolding phase_seen handle
  phase_seen_lem (ok none) s seen = cc
  phase_seen_lem (ok (some text)) s seen = ground (arith, eq_iff text "Deployed")
  phase_seen_lem (err e) s seen = cc
  phase_seen_lem (panic m) s seen = cc

  sees_deployed-Deployed :
      (s : Sys E.State E.Unstructured)
      → (sees_deployed E s).0 ≡ ok true
      → Deployed (sees_deployed E s).1
  unfolding sees_deployed handle
  sees_deployed-Deployed s seen =
      elim (Result-cases (perform E (get_object (Kind.custom kubevirt_gvk) kubevirt_name) s).0) [
        | inl (kubevirt, got) ↦
            let (read, stays) =
              phase_seen_lem (E.nested_string kubevirt ("status" ∷ "phase" ∷ []))
                (perform E (get_object (Kind.custom kubevirt_gvk) kubevirt_name) s).1
                (ground (arith, got, seen)) in
            (s, kubevirt, ground (arith, got, stays), read)
        | inr (inl (e, got)) ↦ ground (arith, got, seen)
        | inr (inr (m, got)) ↦ ground (arith, got, seen)
      ]

  -- The wait returns nil only if its last call read KubeVirt's resource in the phase "Deployed".
  pub wait_for_kubevirt_ready-Deployed :
      (ticks : ℕ) (s : Sys E.State E.Unstructured)
      → (wait_for_kubevirt_ready E ticks s).0 ≡ ok tt
      → Deployed (wait_for_kubevirt_ready E ticks s).1
  unfolding wait_for_kubevirt_ready ◌>>=◌ handle pause
  wait_for_kubevirt_ready-Deployed zero s done = cc
  wait_for_kubevirt_ready-Deployed (suc ticks) s done =
      elim (Result-cases (sees_deployed E (pause E 5 s).1).0) [
        | inl (true, got) ↦
            subst Deployed (ground (arith, got)) (sees_deployed-Deployed (pause E 5 s).1 got)
        | inl (false, got) ↦ subst Deployed (ground (arith, got)) (
            wait_for_kubevirt_ready-Deployed ticks (sees_deployed E (pause E 5 s).1).1
              (ground (arith, got, done)))
        | inr (inl (e, got)) ↦ ground (arith, got, done)
        | inr (inr (m, got)) ↦ ground (arith, got, done)
      ]
