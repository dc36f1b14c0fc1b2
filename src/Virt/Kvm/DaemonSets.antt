-- ===== src/Virt/Kvm/DaemonSets.antt =====
-- The DaemonSet of `runKVMCheckAndLabelNodes`.
use k4all_operator.Base.{String, ◌<>◌, [], ◌∷◌, none, some, true, false}
use k4all_operator.Virt.Types.{VirtReconciler}
use k4all_operator.World.Objects.{NamespacedName, DaemonSet}

abbrev kvm_script : String
kvm_script =
    "\n" <> "\t\t\t\t\t\t\t\t# We can use the Kubernetes-injected environment variable directly\n"
    <> "\t\t\t\t\t\t\t\tNODE_NAME=$HOSTNAME\n"
    <> "\t\t\t\t\t\t\t\techo \"Checking for KVM device on node ${NODE_NAME}\"\n"
    <> "\t\t\t\t\t\t\t\t\n" <> "\t\t\t\t\t\t\t\tif [ -e /dev/kvm ]; then\n"
    <> "\t\t\t\t\t\t\t\t\techo \"KVM device found on node ${NODE_NAME}, labeling node\"\n"
    <> "\t\t\t\t\t\t\t\t\tkubectl label node ${NODE_NAME} feature.node.kubernetes.io/kvm=true --overwrite\n"
    <> "\t\t\t\t\t\t\t\telse\n"
    <> "\t\t\t\t\t\t\t\t\techo \"KVM device not found on node ${NODE_NAME}, labeling node\"\n"
    <> "\t\t\t\t\t\t\t\t\tkubectl label node ${NODE_NAME} feature.node.kubernetes.io/kvm=false --overwrite\n"
    <> "\t\t\t\t\t\t\t\tfi\n" <> "\t\t\t\t\t\t\t\t\n"
    <> "\t\t\t\t\t\t\t\t# Keep the pod running for a while to allow time for the label to be applied\n"
    <> "\t\t\t\t\t\t\t\tsleep 60\n" <> "\t\t\t\t\t\t\t\t"

unfoldable pub kvm_check : VirtReconciler → DaemonSet
kvm_check r = record {
  name = "kvm-capability-check";
  namespace_ = r.config_map_ns;
  match_labels = ("app", "kvm-capability-check") ∷ [];
  template = record {
    labels = ("app", "kvm-capability-check") ∷ [];
    annotations = none;
    service_account_name = "k4all-operator-controller-manager";
    host_network = false;
    host_ipc = false;
    host_pid = false;
    hostname = "";
    container = record {
      name = "kvm-check";
      image = r.tools_image;
      command = "sh" ∷ "-c" ∷ kvm_script ∷ [];
      env = (record { name = "HOSTNAME"; value = ""; field_path = "spec.nodeName" }) ∷ [];
      volume_mounts = (record { name = "dev"; mount_path = "/dev" }) ∷ [];
      privileged = some true;
    };
    volumes = (record { name = "dev"; host_path = "/dev"; host_path_type = none }) ∷ [];
    tolerations = (record { key = ""; operator = "Exists"; effect = "" }) ∷ [];
    restart_policy = "Always";
  };
  number_ready = 0;
  desired_number_scheduled = 0;
}

abbrev pub kvm_check_name : VirtReconciler → NamespacedName
kvm_check_name r = record { name = "kvm-capability-check"; namespace_ = r.config_map_ns }
