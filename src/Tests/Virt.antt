-- ===== src/Tests/Virt.antt =====
-- Runs of the virtualisation feature.
use k4all_operator.Base.{◌≡◌, refl, List, true, false, ◌⊎◌}
use k4all_operator.Base.Dict.{lookup}
use k4all_operator.Base.Effect.{ok, handle, ◌>>=◌, wrapping, ignore}
use k4all_operator.Config.Types.{Config}
use k4all_operator.Downloader.Ready.{kubevirt_gvk, kubevirt_name}
use k4all_operator.Tests.Memory.{memory, answer}
use k4all_operator.Tests.Memory.Encoding.{sample}
use k4all_operator.Tests.Memory.Laws.{polling, has_emulation}
use k4all_operator.Tests.Samples.{start, virt}
use k4all_operator.Virt.Emulation.{is_settled, settle, update_emulation_setting}
use k4all_operator.Virt.Emulation.Settled.{Settled, update_emulation_setting-Settled}
use k4all_operator.Virt.Installed.{
  has_replicas, is_kubevirt_installed, is_cdi_installed, is_kubevirt_manager_installed,
  is_virt_installed,
}
use k4all_operator.Virt.Installed.Parts.{
  read, Seen, IsDeployed, HasReplicas, is_virt_installed-Seen,
}
use k4all_operator.Virt.Kvm.{
  kvm_of, all_labeled, any_kvm, deploy_check, is_check_ready, are_nodes_labeled, delete_check,
  run_kvm_check_and_label_nodes, check_emulation_needed,
}
use k4all_operator.Virt.Kvm.Needed.{HasKvm, check_emulation_needed-HasKvm}
use k4all_operator.Virt.Reconcile.{with_config}
use k4all_operator.Virt.Reconcile.Removes.{Removes, with_config-Removes}
use k4all_operator.Virt.Types.{is_deployed, cdi_gvk, cdi_name, deployment_gvk, manager_name}
use k4all_operator.Base.Text.{trim_space}
use k4all_operator.Downloader.Apply.{
  apply_yaml_from_url, apply_documents, apply_document, create_or_update_resource,
}
use k4all_operator.Downloader.Delete.{
  delete_yaml_from_url, delete_documents, delete_decoded, delete_document, is_skipped,
}
use k4all_operator.Downloader.Ready.{
  ensure_namespace, wait_for_kubevirt_ready, sees_deployed, phase_seen, patch_resource,
}
use k4all_operator.Downloader.Ready.Deployed.{Deployed}
use k4all_operator.Downloader.Versions.{
  get_latest_kubevirt_version, get_latest_cdi_version, strip_v,
}
use k4all_operator.Virt.Cdi.{
  install_cdi, cleanup_cdi_resources, delete_cdi_operator, wait_for_cdi_removal, is_cdi_gone,
  is_cdi_namespace_gone, is_cdi_registered, is_cdi_ready,
}
use k4all_operator.Virt.Install.{install_kubevirt, install_extras, install_virt_components}
use k4all_operator.Virt.Install.Order.{install_virt_components-Deployed}
use k4all_operator.Virt.Manager.{
  install_kubevirt_manager, remove_existing_manager, is_manager_gone, is_manager_ready,
}
use k4all_operator.World.{perform, pause}
use k4all_operator.World.Emits.{Emits}
use k4all_operator.World.Objects.{NamespacedName, Node}
use k4all_operator.World.Requests.{Sys, list_nodes}

update_emulation_setting-Settled_example :
    Settled memory has_emulation true (update_emulation_setting memory true start).1
unfolding update_emulation_setting settle is_settled perform answer handle ◌>>=◌
update_emulation_setting-Settled_example =
    update_emulation_setting-Settled memory has_emulation true start refl

is_virt_installed-Seen_example :
    let s1 = read memory kubevirt_gvk kubevirt_name start in
    let s2 = read memory cdi_gvk cdi_name s1 in
    Seen memory kubevirt_gvk kubevirt_name (IsDeployed memory) start
    × Seen memory cdi_gvk cdi_name (IsDeployed memory) s1
    × Seen memory deployment_gvk manager_name (HasReplicas memory) s2
    × ((is_virt_installed memory start).1 ≡ read memory deployment_gvk manager_name s2)
unfolding is_virt_installed is_kubevirt_installed is_cdi_installed is_kubevirt_manager_installed
    is_deployed has_replicas perform answer handle ◌>>=◌
is_virt_installed-Seen_example = is_virt_installed-Seen memory start refl

check_emulation_needed-HasKvm_example :
    ((run_kvm_check_and_label_nodes memory virt start).0 ≡ ok tt)
    × (nodes : List Node) × ((perform memory list_nodes
          (run_kvm_check_and_label_nodes memory virt start).1).0
        ≡ ok nodes)
    × (((false ≡ false) × HasKvm nodes) ⊎ ((false ≡ true) × (¬ HasKvm nodes)))
unfolding check_emulation_needed run_kvm_check_and_label_nodes deploy_check is_check_ready
    are_nodes_labeled delete_check any_kvm all_labeled kvm_of lookup perform pause answer handle
    ◌>>=◌
check_emulation_needed-HasKvm_example = check_emulation_needed-HasKvm memory virt false start refl

install_virt_components-Deployed_example :
    (ready : Sys memory.State memory.Unstructured) × Deployed memory ready
    × (install_extras memory virt 3 2 ready
        ≡ (ok tt, (install_virt_components memory virt 3 2 start).1))
unfolding install_virt_components install_kubevirt install_extras ensure_namespace
    get_latest_kubevirt_version get_latest_cdi_version strip_v trim_space apply_yaml_from_url
    apply_documents apply_document create_or_update_resource wait_for_kubevirt_ready sees_deployed
    phase_seen check_emulation_needed run_kvm_check_and_label_nodes deploy_check is_check_ready
    are_nodes_labeled delete_check any_kvm all_labeled kvm_of lookup install_cdi
    cleanup_cdi_resources delete_cdi_operator wait_for_cdi_removal is_cdi_gone is_cdi_namespace_gone
    is_cdi_registered is_cdi_ready is_deployed patch_resource delete_yaml_from_url delete_documents
    delete_decoded delete_document is_skipped install_kubevirt_manager remove_existing_manager
    is_manager_gone is_manager_ready has_replicas perform pause answer ignore handle ◌>>=◌ wrapping
install_virt_components-Deployed_example =
    install_virt_components-Deployed memory virt 3 2 start refl

abbrev other_name : NamespacedName
other_name = record { name = "other"; namespace_ = "default" }

abbrev config_name : NamespacedName
config_name = record { name = "k4all-config"; namespace_ = "k4all-operator-system" }

abbrev disabled : Config
disabled = record sample {
  features = record sample.features {
    virt = record { enabled = "false"; managed = "true"; version = ""; emulation = "auto" };
  };
}

with_config-Removes_example : Emits memory Removes (with_config memory virt 3 2 disabled)
with_config-Removes_example = with_config-Removes memory polling virt 3 2 disabled refl
