-- ===== src/Virt/Installed/Parts.antt =====
-- When the feature counts as installed.
use k4all_operator.Base.{
  String, ◌≡◌, refl, ap, subst, ◌∙◌, Option, none, some, true, [], ◌∷◌, arith, eq_iff, inl, inr,
}
use k4all_operator.Base.Effect.{Result, ok, err, panic, Result-cases, lift, handle, ◌>>=◌, pure}
use k4all_operator.Base.Int.{ℤ, pos, ltb_ℤ}
use k4all_operator.Downloader.Ready.{kubevirt_gvk, kubevirt_name}
use k4all_operator.Virt.Installed.{
  has_replicas, is_kubevirt_installed, is_cdi_installed, is_kubevirt_manager_installed,
  is_virt_installed,
}
use k4all_operator.Virt.Types.{
  cdi_gvk, cdi_name, deployment_gvk, manager_name, phase_path, is_deployed,
}
use k4all_operator.World.{Env, called, perform}
use k4all_operator.World.Objects.{NamespacedName, Gvk, Kind}
use k4all_operator.World.Requests.{Sys, get_object}

module _ (E : Env) where
  abbrev pub read : Gvk → NamespacedName → Sys E.State E.Unstructured → Sys E.State E.Unstructured
  read gvk key s = called E (get_object (Kind.custom gvk) key) s

  -- The read of a resource from this state gives an object of which a test holds.
  abbrev pub Seen :
      Gvk → NamespacedName → (E.Unstructured → Type 0) → Sys E.State E.Unstructured → Type 0
  Seen gvk key P s =
      (obj : E.Unstructured) × ((perform E (get_object (Kind.custom gvk) key) s).0 ≡ ok obj) × P obj

  abbrev pub IsDeployed : E.Unstructured → Type 0
  IsDeployed obj = E.nested_string obj phase_path ≡ ok (some "Deployed")

  abbrev pub HasReplicas : E.Unstructured → Type 0
  HasReplicas obj =
      (replicas : ℤ) × (E.nested_int64 obj ("status" ∷ "availableReplicas" ∷ [])
        ≡ ok (some replicas))
      × (ltb_ℤ (pos 0) replicas ≡ true)

  deployed_phase :
      (r : Result (Option String)) (s : Sys E.State E.Unstructured)
      → ((lift r >>= (λ phase. pure (is_deployed phase))) s).0 ≡ ok true
      → r ≡ ok (some "Deployed")
  unfolding ◌>>=◌ handle is_deployed
  deployed_phase (ok none) s found = cc
  deployed_phase (ok (some text)) s found = ground (arith, eq_iff text "Deployed")
  deployed_phase (err e) s found = cc
  deployed_phase (panic m) s found = cc

  available :
      (r : Result (Option ℤ)) (s : Sys E.State E.Unstructured)
      → ((lift r >>= (λ replicas. pure (has_replicas replicas))) s).0 ≡ ok true
      → (replicas : ℤ) × (r ≡ ok (some replicas)) × (ltb_ℤ (pos 0) replicas ≡ true)
  unfolding ◌>>=◌ handle has_replicas
  available (ok none) s found = cc
  available (ok (some n)) s found = (n, refl, cc)
  available (err e) s found = cc
  available (panic m) s found = cc

  kubevirt-read :
      (s : Sys E.State E.Unstructured) (obj : E.Unstructured)
      → (perform E (get_object (Kind.custom kubevirt_gvk) kubevirt_name) s).0 ≡ ok obj
      → (is_kubevirt_installed E s).1 ≡ read kubevirt_gvk kubevirt_name s
  unfolding is_kubevirt_installed handle perform ◌>>=◌
  kubevirt-read s obj got = ground (arith, got)

  kubevirt-Seen :
      (s : Sys E.State E.Unstructured)
      → (is_kubevirt_installed E s).0 ≡ ok true
      → Seen kubevirt_gvk kubevirt_name IsDeployed s
        × ((is_kubevirt_installed E s).1 ≡ read kubevirt_gvk kubevirt_name s)
  unfolding is_kubevirt_installed handle
  kubevirt-Seen s found =
      elim (Result-cases (perform E (get_object (Kind.custom kubevirt_gvk) kubevirt_name) s).0) [
        | inl (obj, got) ↦ (
          (
            obj,
            got,
            deployed_phase (E.nested_string obj phase_path)
                (perform E (get_object (Kind.custom kubevirt_gvk) kubevirt_name) s).1
                (ground (arith, got, found)),
          ),
          kubevirt-read s obj got,
        )
        | inr (inl (e, got)) ↦ ground (arith, got, found)
        | inr (inr (m, got)) ↦ ground (arith, got, found)
      ]

  cdi-read :
      (s : Sys E.State E.Unstructured) (obj : E.Unstructured)
      → (perform E (get_object (Kind.custom cdi_gvk) cdi_name) s).0 ≡ ok obj
      → (is_cdi_installed E s).1 ≡ read cdi_gvk cdi_name s
  unfolding is_cdi_installed handle perform ◌>>=◌
  cdi-read s obj got = ground (arith, got)

  cdi-Seen :
      (s : Sys E.State E.Unstructured)
      → (is_cdi_installed E s).0 ≡ ok true
      → Seen cdi_gvk cdi_name IsDeployed s × ((is_cdi_installed E s).1 ≡ read cdi_gvk cdi_name s)
  unfolding is_cdi_installed handle
  cdi-Seen s found =
      elim (Result-cases (perform E (get_object (Kind.custom cdi_gvk) cdi_name) s).0) [
        | inl (obj, got) ↦ (
          (
            obj,
            got,
            deployed_phase (E.nested_string obj phase_path)
                (perform E (get_object (Kind.custom cdi_gvk) cdi_name) s).1
                (ground (arith, got, found)),
          ),
          cdi-read s obj got,
        )
        | inr (inl (e, got)) ↦ ground (arith, got, found)
        | inr (inr (m, got)) ↦ ground (arith, got, found)
      ]

  manager-read :
      (s : Sys E.State E.Unstructured) (obj : E.Unstructured)
      → (perform E (get_object (Kind.custom deployment_gvk) manager_name) s).0 ≡ ok obj
      → (is_kubevirt_manager_installed E s).1 ≡ read deployment_gvk manager_name s
  unfolding is_kubevirt_manager_installed handle perform ◌>>=◌
  manager-read s obj got = ground (arith, got)

  manager-Seen :
      (s : Sys E.State E.Unstructured)
      → (is_kubevirt_manager_installed E s).0 ≡ ok true
      → Seen deployment_gvk manager_name HasReplicas s
        × ((is_kubevirt_manager_installed E s).1 ≡ read deployment_gvk manager_name s)
  unfolding is_kubevirt_manager_installed handle
  manager-Seen s found =
      elim (Result-cases (perform E (get_object (Kind.custom deployment_gvk) manager_name) s).0) [
        | inl (obj, got) ↦ (
          (
            obj,
            got,
            available (E.nested_int64 obj ("status" ∷ "availableReplicas" ∷ []))
                (perform E (get_object (Kind.custom deployment_gvk) manager_name) s).1
                (ground (arith, got, found)),
          ),
          manager-read s obj got,
        )
        | inr (inl (e, got)) ↦ ground (arith, got, found)
        | inr (inr (m, got)) ↦ ground (arith, got, found)
      ]

  parts_true :
      (s : Sys E.State E.Unstructured)
      → (is_virt_installed E s).0 ≡ ok true
      → ((is_kubevirt_installed E s).0 ≡ ok true)
        × ((is_cdi_installed E (is_kubevirt_installed E s).1).0 ≡ ok true)
        × ((is_kubevirt_manager_installed E (is_cdi_installed E (is_kubevirt_installed E s).1).1).0
            ≡ ok true)
        × ((is_virt_installed E s).1
            ≡ (is_kubevirt_manager_installed E
                (is_cdi_installed E (is_kubevirt_installed E s).1).1).1)
  unfolding is_virt_installed ◌>>=◌ handle
  parts_true s found = ground arith

  -- The feature counts as installed only if the first call read KubeVirt in the phase "Deployed", the
  -- second read CDI in the phase "Deployed", and the third and last read the manager's deployment
  -- with an available replica.
  pub is_virt_installed-Seen :
      (s : Sys E.State E.Unstructured)
      → (is_virt_installed E s).0 ≡ ok true
      → let s1 = read kubevirt_gvk kubevirt_name s in
        let s2 = read cdi_gvk cdi_name s1 in
        Seen kubevirt_gvk kubevirt_name IsDeployed s
        × Seen cdi_gvk cdi_name IsDeployed s1
        × Seen deployment_gvk manager_name HasReplicas s2
        × ((is_virt_installed E s).1 ≡ read deployment_gvk manager_name s2)
  is_virt_installed-Seen s found =
      let (first, second, third, last) = parts_true s found in
      let (kubevirt, at1) = kubevirt-Seen s first in
      let (cdi, at2) = cdi-Seen _ second in
      let (manager, at3) = manager-Seen _ third in
      let to1 : (is_kubevirt_installed E s).1 ≡ read kubevirt_gvk kubevirt_name s = at1 in
      let to2 = at2 ∙ ap (read cdi_gvk cdi_name) to1 in
      (
        kubevirt,
        subst (Seen cdi_gvk cdi_name IsDeployed) to1 cdi,
        subst (Seen deployment_gvk manager_name HasReplicas) to2 manager,
        last ∙ at3 ∙ ap (read deployment_gvk manager_name) to2,
      )
