-- ===== src/Virt/Setup.antt =====
-- RunVirtSetupScript, which no other code calls.
use k4all_operator.Base.{[], ◌∷◌}
use k4all_operator.FeatureScripts.Runner.{FeatureScriptConfig, run_feature_script}
use k4all_operator.JobRunner.Types.{Shared, Finished}
use k4all_operator.Virt.Types.{VirtReconciler}
use k4all_operator.World.{Env, Program}

abbrev pub virt_script : FeatureScriptConfig
virt_script = record {
  feature_name = "virt";
  script_name = "setup-feature-virt.sh";
  additional_utilities = "k4all-utils" ∷ [];
  env = [];
}

unfoldable pub run_virt_setup_script :
    {B : Type 0} (E : Env) → VirtReconciler → Shared B → Program E (Finished B)
run_virt_setup_script E r shared = run_feature_script E virt_script r.tools_image shared
