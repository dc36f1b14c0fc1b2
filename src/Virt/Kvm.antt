-- ===== src/Virt/Kvm.antt =====
-- CheckEmulationNeeded: whether a node has KVM, found out by a DaemonSet that labels the nodes.
pub mod DaemonSets
pub mod Needed
use k4all_operator.Base.{
  ℕ, String, List, [], ◌∷◌, Option, none, some, Bool, true, false, not, ◌==◌, ◌&&◌, ◌||◌, ltb,
  nat_eq, if◌then◌else◌,
}
use k4all_operator.Base.Dict.{Dict, lookup}
use k4all_operator.Base.Effect.{is_not_found, pure, fail, lift, handle, ◌>>=◌, ◌>>◌}
use k4all_operator.Virt.Kvm.DaemonSets.{kvm_check, kvm_check_name}
use k4all_operator.Virt.Types.{VirtReconciler}
use k4all_operator.World.{Env, Program, perform, pause}
use k4all_operator.World.Objects.{Kind, Node}
use k4all_operator.World.Requests.{
  get_object, create_object, update_object, delete_object, list_nodes,
}

abbrev pub kvm_label : String
kvm_label = "feature.node.kubernetes.io/kvm"

-- The value of the label, if the node has it.
unfoldable pub kvm_of : Node → Option String
kvm_of node = elim node.labels [ none ↦ none | some labels ↦ lookup kvm_label labels ]

unfoldable pub all_labeled : List Node → Bool
unfolding kvm_of
all_labeled [] = true
all_labeled (node ∷ nodes) =
    elim (kvm_of node) [ none ↦ false | some value ↦ true ] && all_labeled nodes

-- exists && val == "true", for some node
unfoldable pub any_kvm : List Node → Bool
unfolding kvm_of
any_kvm [] = false
any_kvm (node ∷ nodes) =
    elim (kvm_of node) [ none ↦ false | some value ↦ value == "true" ] || any_kvm nodes

module _ (E : Env) (r : VirtReconciler) where
  -- The DaemonSet is created, or the one that exists gets its specification.
  unfoldable pub deploy_check : Program E Unit
  deploy_check =
      handle (perform E (get_object Kind.daemon_set (kvm_check_name r)))
        (λ e.
          if is_not_found e
          then perform E (create_object Kind.daemon_set (kvm_check r))
          else fail e)
        (λ existing. perform E (
          update_object Kind.daemon_set (record existing {
            match_labels = (kvm_check r).match_labels;
            template = (kvm_check r).template;
          })))

  -- The condition of the first wait.
  unfoldable pub is_check_ready : Program E Bool
  is_check_ready =
      handle (perform E (get_object Kind.daemon_set (kvm_check_name r)))
        (λ e. if is_not_found e then pure false else fail e)
        (λ ds.
          pure (
            nat_eq ds.number_ready ds.desired_number_scheduled
            && ltb 0 ds.desired_number_scheduled))

  -- The condition of the second wait.
  unfoldable pub are_nodes_labeled : Program E Bool
  unfolding all_labeled
  are_nodes_labeled = do nodes ← perform E list_nodes; pure (all_labeled nodes)

  -- An error of the deletion counts only if the nodes were not all labelled.
  unfoldable pub delete_check : Bool → Program E Unit
  delete_check labeled =
      handle (perform E (delete_object Kind.daemon_set (kvm_check_name r)))
        (λ e. if not (is_not_found e) && not labeled then fail e else pure tt) (λ _. pure tt)

  unfoldable pub run_kvm_check_and_label_nodes : Program E Unit
  unfolding deploy_check is_check_ready are_nodes_labeled delete_check
  run_kvm_check_and_label_nodes = do
    deploy_check
    E.poll 5 120 false is_check_ready
    pause E 5
    handle (E.poll 5 60 false are_nodes_labeled) (λ e. delete_check false) (λ _. delete_check true)

  unfoldable pub check_emulation_needed : String → Program E Bool
  unfolding run_kvm_check_and_label_nodes any_kvm
  check_emulation_needed emulation_setting =
      if emulation_setting == "true"
      then pure true
      else if emulation_setting == "false"
      then pure false
      else if emulation_setting == "auto"
      then (do
        run_kvm_check_and_label_nodes
        nodes ← perform E list_nodes
        pure (not (any_kvm nodes)))
      else pure false
