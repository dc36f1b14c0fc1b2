-- ===== src/Virt/Kvm/Needed.antt =====
-- When emulation is needed.
use k4all_operator.Base.{
  ◌≡◌, refl, ap, subst, ◌∙◌, String, ◌==◌, List, [], ◌∷◌, Option, none, some, Option-cases, Bool,
  Bool-cases, true, false, arith, eq_iff, ◌⊎◌, inl, inr,
}
use k4all_operator.Base.Dict.{Dict, lookup}
use k4all_operator.Base.Effect.{ok, Result-cases, handle}
use k4all_operator.Base.Triple.{bind-ok}
use k4all_operator.Virt.Kvm.{
  kvm_of, any_kvm, delete_check, are_nodes_labeled, run_kvm_check_and_label_nodes,
  check_emulation_needed,
}
use k4all_operator.Virt.Kvm.DaemonSets.{kvm_check_name}
use k4all_operator.Virt.Types.{VirtReconciler}
use k4all_operator.World.{Env, perform}
use k4all_operator.World.Objects.{Kind, Node}
use k4all_operator.World.Requests.{Sys, list_nodes, delete_object}

-- Some node has the label of KVM with the value "true".
abbrev pub HasKvm : List Node → Type 0
HasKvm [] = ⊥
HasKvm (node ∷ nodes) =
    ((labels : Dict String) × (node.labels ≡ some labels)
      × (lookup "feature.node.kubernetes.io/kvm" labels ≡ some "true"))
    ⊎ HasKvm nodes

-- whether this value, if any, is "true"
is_true-some :
    (value : Option String)
    → elim value [ none ↦ false | some text ↦ text == "true" ] ≡ true
    → value ≡ some "true"
is_true-some none h = cc h
is_true-some (some text) h = ap some ((eq_iff text "true").0 h)

-- the label's value on a node
kvm_of-some :
    (node : Node) (value : String)
    → kvm_of node ≡ some value
    → (labels : Dict String) × (node.labels ≡ some labels)
      × (lookup "feature.node.kubernetes.io/kvm" labels ≡ some value)
unfolding kvm_of
kvm_of-some node value h = elim (Option-cases node.labels) [
  | inl absent ↦ ground (arith, absent, h)
  | inr (labels, present) ↦ (labels, present, ground (arith, present, h))
]

not_here :
    (node : Node)
    → elim (kvm_of node) [ none ↦ false | some text ↦ text == "true" ] ≡ false
    → (labels : Dict String) × (node.labels ≡ some labels)
      × (lookup "feature.node.kubernetes.io/kvm" labels ≡ some "true")
    → ⊥
unfolding kvm_of
not_here node missing (labels, present, value) =
    ground (arith, missing, present, value, eq_iff "true" "true")

any_kvm-HasKvm :
    (nodes : List Node)
    → ((any_kvm nodes ≡ true) × HasKvm nodes) ⊎ ((any_kvm nodes ≡ false) × (¬ HasKvm nodes))
unfolding any_kvm
any_kvm-HasKvm [] = inr (refl, λ h. h)
any_kvm-HasKvm (node ∷ nodes) =
    elim (Bool-cases (elim (kvm_of node) [ none ↦ false | some text ↦ text == "true" ])) [
      | inl found ↦
          inl (ground (arith, found), inl (kvm_of-some node "true" (is_true-some _ found)))
      | inr missing ↦ elim (any_kvm-HasKvm nodes) [
        | inl (later, has) ↦ inl (ground (arith, missing, later), inr has)
        | inr (later, lacks) ↦ inr (
          ground (arith, missing, later),
          λ has. elim has [ inl here ↦ not_here node missing here | inr there ↦ lacks there ],
        )
      ]
    ]

module _ (E : Env) (r : VirtReconciler) where
  -- The last call of a run that ends in `final` was the deletion of the DaemonSet.
  abbrev pub CleanedUp : Sys E.State E.Unstructured → Type 0
  CleanedUp final =
      (before : Sys E.State E.Unstructured) × (final
        ≡ (perform E (delete_object Kind.daemon_set (kvm_check_name r)) before).1)

  delete_check-CleanedUp :
      (labeled : Bool) (s : Sys E.State E.Unstructured) → CleanedUp (delete_check E r labeled s).1
  unfolding delete_check handle
  delete_check-CleanedUp labeled s = (s, ground arith)

  -- The last wait and the deletion.
  ends-CleanedUp :
      (s : Sys E.State E.Unstructured)
      → let last =
          handle
            (E.poll 5 60 false (are_nodes_labeled E r))
            (λ e. delete_check E r false)
            (λ _. delete_check E r true) in
        (last s).0 ≡ ok tt → CleanedUp (last s).1
  unfolding handle
  ends-CleanedUp s done =
      let waited = E.poll 5 60 false (are_nodes_labeled E r) s in
      elim (Result-cases waited.0) [
        | inl (_, got) ↦
            subst CleanedUp (ground (arith, got)) (delete_check-CleanedUp true waited.1)
        | inr (inl (e, got)) ↦
            subst CleanedUp (ground (arith, got)) (delete_check-CleanedUp false waited.1)
        | inr (inr (m, got)) ↦ ground (arith, got, done)
      ]

  -- If the check of the nodes returns nil, its last call was the deletion of its DaemonSet.
  pub run_kvm_check-CleanedUp :
      (s : Sys E.State E.Unstructured)
      → (run_kvm_check_and_label_nodes E r s).0 ≡ ok tt
      → CleanedUp (run_kvm_check_and_label_nodes E r s).1
  unfolding run_kvm_check_and_label_nodes
  run_kvm_check-CleanedUp s done =
      let (_, _, done1, at1) = bind-ok _ _ s tt done in
      let (_, _, done2, at2) = bind-ok _ _ _ tt done1 in
      let (_, _, done3, at3) = bind-ok _ _ _ tt done2 in
      subst CleanedUp (at3 ∙ at2 ∙ at1) (ends-CleanedUp _ done3)

  -- With the setting "auto", an answer is given only after the check of the nodes returned nil, and
  -- then a list of the nodes was read. Emulation is not needed if some node of that list has the
  -- label of KVM with the value "true", and it is needed if there is none.
  pub check_emulation_needed-HasKvm :
      (needed : Bool) (s : Sys E.State E.Unstructured)
      → (check_emulation_needed E r "auto" s).0 ≡ ok needed
      → ((run_kvm_check_and_label_nodes E r s).0 ≡ ok tt)
        × (nodes : List Node) × ((perform E list_nodes (run_kvm_check_and_label_nodes E r s).1).0
            ≡ ok nodes)
        × (((needed ≡ false) × HasKvm nodes) ⊎ ((needed ≡ true) × (¬ HasKvm nodes)))
  unfolding check_emulation_needed
  check_emulation_needed-HasKvm needed s answered =
      let (_, first, done1, _) = bind-ok _ _ s needed answered in
      let (nodes, got, done2, _) = bind-ok _ _ _ needed done1 in
      (
        first,
        nodes,
        got,
        elim (any_kvm-HasKvm nodes) [
          | inl (found, has) ↦ inl (ground (arith, done2, found), has)
          | inr (missing, lacks) ↦ inr (ground (arith, done2, missing), lacks)
        ],
      )
