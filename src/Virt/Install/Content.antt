-- ===== src/Virt/Install/Content.antt =====
-- The installation of the virtualisation feature writes no file of the host.
use k4all_operator.Base.{ℕ, String, Bool, true, false}
use k4all_operator.Base.Keeps.{Keeps, Keeps-bind, Keeps-handle, keeps_rules}
use k4all_operator.Downloader.Versions.{get_latest_kubevirt_version, get_latest_cdi_version}
use k4all_operator.Virt.Cdi.{
  is_cdi_gone, is_cdi_namespace_gone, wait_for_cdi_removal, delete_cdi_operator,
  cleanup_cdi_resources, is_cdi_registered, is_cdi_ready, install_cdi,
}
use k4all_operator.Virt.Emulation.{settle, update_emulation_setting}
use k4all_operator.Virt.Install.{install_kubevirt, install_extras, install_virt_components}
use k4all_operator.Virt.Kvm.{
  deploy_check, is_check_ready, are_nodes_labeled, delete_check, run_kvm_check_and_label_nodes,
  check_emulation_needed,
}
use k4all_operator.Virt.Manager.{
  is_manager_gone, remove_existing_manager, is_manager_ready, install_kubevirt_manager,
}
use k4all_operator.Virt.Reconcile.Removes.{
  Removes, kubevirt_version-Leaves, cdi_version-Leaves, delete_cdi_operator-Leaves,
}
use k4all_operator.Virt.Types.{VirtReconciler}
use k4all_operator.World.{Env, Program}
use k4all_operator.World.Emits.{Origin, Since, since_rules, Keeps-fewer, waits-Since, pause-Since}
use k4all_operator.World.FileSystem.{LeavesFiles}
use k4all_operator.World.Polling.{IsPolling}
use k4all_operator.World.Requests.{Request, Sys}
use k4all_operator.Downloader.Content.{
  apply_yaml-Leaves, ready-Leaves, ensure_namespace-Leaves, patch-Leaves,
}

pub Removes-LeavesFiles : {U : Type 0} (q : Request U) → Removes q → LeavesFiles q
Removes-LeavesFiles (Request.write_file _ _) h = absurd h
Removes-LeavesFiles (Request.rename_file _ _) h = absurd h
Removes-LeavesFiles _ h = tt

module _ (E : Env) (W : IsPolling E) (r : VirtReconciler) (old : Origin E LeavesFiles) where
  abbrev Leaves : Sys E.State E.Unstructured → Type 0
  Leaves = Since LeavesFiles old

  pub removes :
      {A : Type 0} (m : Program E A)
      → ((older : Origin E Removes) → Keeps (Since Removes older) m)
      → Keeps Leaves m
  removes m k = Keeps-fewer E Removes LeavesFiles Removes-LeavesFiles m k old

  poll-Leaves :
      (interval timeout : ℕ) (immediate : Bool) (condition : Program E Bool)
      → Keeps Leaves condition
      → Keeps Leaves (E.poll interval timeout immediate condition)
  poll-Leaves interval timeout immediate condition k =
      W.keeps Leaves interval timeout immediate condition (waits-Since E LeavesFiles old) k

  is_cdi_gone-Leaves : Keeps Leaves (is_cdi_gone E)
  unfolding is_cdi_gone
  is_cdi_gone-Leaves = search (keeps_rules, since_rules) depth 9

  is_cdi_namespace_gone-Leaves : Keeps Leaves (is_cdi_namespace_gone E)
  unfolding is_cdi_namespace_gone
  is_cdi_namespace_gone-Leaves = search (keeps_rules, since_rules) depth 9

  wait_for_cdi_removal-Leaves : Keeps Leaves (wait_for_cdi_removal E)
  unfolding wait_for_cdi_removal
  wait_for_cdi_removal-Leaves =
      search (keeps_rules, since_rules, poll-Leaves, is_cdi_gone-Leaves) depth 9

  delete_cdi_operator-kept : (fuel : ℕ) → Keeps Leaves (delete_cdi_operator E fuel)
  delete_cdi_operator-kept fuel = removes _ λ older. delete_cdi_operator-Leaves E W r older fuel

  cleanup-Leaves : (fuel : ℕ) → Keeps Leaves (cleanup_cdi_resources E fuel)
  unfolding cleanup_cdi_resources
  cleanup-Leaves fuel =
      search
        (
          keeps_rules, since_rules, poll-Leaves, is_cdi_namespace_gone-Leaves,
          wait_for_cdi_removal-Leaves, delete_cdi_operator-kept,
        )
        depth 9

  cdi_version-kept : Keeps {A = String} Leaves (get_latest_cdi_version E)
  cdi_version-kept = removes _ λ older. cdi_version-Leaves E W r older

  kubevirt_version-kept : Keeps {A = String} Leaves (get_latest_kubevirt_version E)
  kubevirt_version-kept = removes _ λ older. kubevirt_version-Leaves E W r older

  is_cdi_registered-Leaves : Keeps Leaves (is_cdi_registered E)
  unfolding is_cdi_registered
  is_cdi_registered-Leaves = search (keeps_rules, since_rules) depth 9

  is_cdi_ready-Leaves : Keeps Leaves (is_cdi_ready E)
  unfolding is_cdi_ready
  is_cdi_ready-Leaves = search (keeps_rules, since_rules) depth 9

  install_cdi-Leaves : (fuel : ℕ) → Keeps Leaves (install_cdi E fuel)
  unfolding install_cdi
  install_cdi-Leaves fuel =
      search
        (
          keeps_rules,
          cleanup-Leaves,
          cdi_version-kept,
          apply_yaml-Leaves E old,
          poll-Leaves,
          is_cdi_registered-Leaves,
          is_cdi_ready-Leaves,
          patch-Leaves E old,
        )
        depth 14

  is_manager_gone-Leaves : Keeps Leaves (is_manager_gone E)
  unfolding is_manager_gone
  is_manager_gone-Leaves = search (keeps_rules, since_rules) depth 9

  remove_existing-Leaves : Keeps Leaves (remove_existing_manager E)
  unfolding remove_existing_manager
  remove_existing-Leaves =
      search (keeps_rules, since_rules, poll-Leaves, is_manager_gone-Leaves) depth 9

  is_manager_ready-Leaves : Keeps Leaves (is_manager_ready E)
  unfolding is_manager_ready
  is_manager_ready-Leaves = search (keeps_rules, since_rules) depth 9

  install_manager-Leaves : (fuel : ℕ) → Keeps Leaves (install_kubevirt_manager E fuel)
  unfolding install_kubevirt_manager
  install_manager-Leaves fuel =
      search
        (
          keeps_rules,
          remove_existing-Leaves,
          ensure_namespace-Leaves E old,
          apply_yaml-Leaves E old,
          poll-Leaves,
          is_manager_ready-Leaves,
        )
        depth 12

  pub update_emulation-Leaves :
      (use_emulation : Bool) → Keeps Leaves (update_emulation_setting E use_emulation)
  unfolding update_emulation_setting settle
  update_emulation-Leaves use_emulation = search (keeps_rules, since_rules) depth 9

  deploy_check-Leaves : Keeps Leaves (deploy_check E r)
  unfolding deploy_check
  deploy_check-Leaves = search (keeps_rules, since_rules) depth 9

  is_check_ready-Leaves : Keeps Leaves (is_check_ready E r)
  unfolding is_check_ready
  is_check_ready-Leaves = search (keeps_rules, since_rules) depth 9

  are_nodes_labeled-Leaves : Keeps Leaves (are_nodes_labeled E r)
  unfolding are_nodes_labeled
  are_nodes_labeled-Leaves = search (keeps_rules, since_rules) depth 9

  delete_check-Leaves : (labeled : Bool) → Keeps Leaves (delete_check E r labeled)
  unfolding delete_check
  delete_check-Leaves labeled = search (keeps_rules, since_rules) depth 9

  run_kvm_check-Leaves : Keeps Leaves (run_kvm_check_and_label_nodes E r)
  unfolding run_kvm_check_and_label_nodes
  run_kvm_check-Leaves = Keeps-bind _ _ deploy_check-Leaves λ _.
      Keeps-bind _ _ (poll-Leaves 5 120 false _ is_check_ready-Leaves) λ _.
        Keeps-bind _ _ (pause-Since E LeavesFiles old 5) λ _.
          Keeps-handle _ _ _ (poll-Leaves 5 60 false _ are_nodes_labeled-Leaves)
            (λ e. delete_check-Leaves false) (λ _. delete_check-Leaves true)

  pub check_emulation-Leaves :
      (setting : String) → Keeps Leaves (check_emulation_needed E r setting)
  unfolding check_emulation_needed
  check_emulation-Leaves setting = search (keeps_rules, since_rules, run_kvm_check-Leaves) depth 12

  pub install_virt-Leaves : (fuel ticks : ℕ) → Keeps Leaves (install_virt_components E r fuel ticks)
  unfolding install_virt_components install_kubevirt install_extras
  install_virt-Leaves fuel ticks =
      search
        (
          keeps_rules,
          ensure_namespace-Leaves E old,
          kubevirt_version-kept,
          apply_yaml-Leaves E old,
          ready-Leaves E old,
          check_emulation-Leaves,
          update_emulation-Leaves,
          install_cdi-Leaves,
          install_manager-Leaves,
        )
        depth 14
