-- ===== src/Virt/Install/Order.antt =====
-- The order of the steps.
use k4all_operator.Base.{ℕ, ◌≡◌, subst, ◌∙◌}
use k4all_operator.Base.Effect.{ok}
use k4all_operator.Base.Triple.{bind-ok}
use k4all_operator.Downloader.Ready.Deployed.{Deployed, wait_for_kubevirt_ready-Deployed}
use k4all_operator.Virt.Install.{install_kubevirt, install_extras, install_virt_components}
use k4all_operator.Virt.Types.{VirtReconciler}
use k4all_operator.World.{Env}
use k4all_operator.World.Requests.{Sys}

module _ (E : Env) where
  module _ (r : VirtReconciler) (fuel ticks : ℕ) where
    install_kubevirt-Deployed :
        (s : Sys E.State E.Unstructured)
        → (install_kubevirt E r fuel ticks s).0 ≡ ok tt
        → Deployed E (install_kubevirt E r fuel ticks s).1
    unfolding install_kubevirt
    install_kubevirt-Deployed s done =
        let (_, _, done1, at1) = bind-ok _ _ s tt done in
        let (_, _, done2, at2) = bind-ok _ _ _ tt done1 in
        let (_, _, done3, at3) = bind-ok _ _ _ tt done2 in
        let (_, _, done4, at4) = bind-ok _ _ _ tt done3 in
        subst (Deployed E) (at4 ∙ at3 ∙ at2 ∙ at1)
          (wait_for_kubevirt_ready-Deployed E ticks _ done4)

    -- If the installation returns nil, then the emulation, CDI and the manager were dealt with,
    -- without an error, from a state in which the last call had read KubeVirt in the phase
    -- "Deployed".
    pub install_virt_components-Deployed :
        (s : Sys E.State E.Unstructured)
        → (install_virt_components E r fuel ticks s).0 ≡ ok tt
        → (ready : Sys E.State E.Unstructured) × Deployed E ready
          × (install_extras E r fuel ticks ready
              ≡ (ok tt, (install_virt_components E r fuel ticks s).1))
    unfolding install_virt_components
    install_virt_components-Deployed s done =
        let (_, first, second, ends) = bind-ok _ _ s tt done in
        (
          (install_kubevirt E r fuel ticks s).1,
          install_kubevirt-Deployed s first,
          (λ i. (second i, ends i)),
        )
