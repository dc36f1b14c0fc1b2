-- ===== src/FeatureScripts/Runner.antt =====
-- addK4allMounts, RunFeatureScript and RunFeatureScriptDirect. The caller's map of environment
-- variables is given by its entries in the order in which the loop meets them, which Go leaves open.
use k4all_operator.Base.{String, ◌<>◌, none, some, true, false, List, [], ◌∷◌, ◌++◌, map}
use k4all_operator.Base.Dict.{Dict}
use k4all_operator.Base.Effect.{wrap, pure, ◌>>=◌}
use k4all_operator.FeatureScripts.FilePaths.{join_path}
use k4all_operator.FeatureScripts.Scripts.{symlink_command, setup_script}
use k4all_operator.JobRunner.Run.{run_job}
use k4all_operator.JobRunner.Types.{HostMount, JobConfig, Shared, Finished}
use k4all_operator.World.{Env, Program}
use k4all_operator.World.Objects.{EnvVar}

pub record FeatureScriptConfig : Type 0 where
  pub feature_name : String
  pub script_name : String
  pub additional_utilities : List String
  pub env : Dict String

abbrev pub add_k4all_mounts : List HostMount
add_k4all_mounts =
    (record {
      host_path = "/etc/k4all-config.json";
      container_path = "/etc/k4all-config.json";
      type = "File";
    })
    ∷ (record {
      host_path = "/opt/k4all";
      container_path = "/opt/k4all";
      type = "DirectoryOrCreate";
    })
    ∷ (record {
      host_path = "/usr/local/share";
      container_path = "/usr/local/share";
      type = "DirectoryOrCreate";
    })
    ∷ []

-- The loop over the utilities.
unfoldable pub symlink_commands : List String → String
symlink_commands [] = ""
symlink_commands (util ∷ utilities) = symlink_command util <> symlink_commands utilities

unfoldable pub utilities : FeatureScriptConfig → List String
utilities c = "k4all-utils" ∷ c.script_name ∷ c.additional_utilities

abbrev pub env_var : String × String → EnvVar
env_var (key, value) = record { name = key; value = value; field_path = "" }

-- The loop over the map, and the variable that is added.
unfoldable pub env_vars : Dict String → List EnvVar
env_vars entries = map env_var entries ++ (env_var ("K4ALL_DEBUG", "true") ∷ [])

abbrev pub feature_labels : String → Dict String
feature_labels feature_name =
    ("app.kubernetes.io/name", "k4all-operator")
    ∷ ("app.kubernetes.io/component", "feature-installer")
    ∷ ("app.kubernetes.io/part-of", "k4all-operator")
    ∷ ("feature", feature_name)
    ∷ []

module _ {B : Type 0} where
  unfoldable pub script_job : FeatureScriptConfig → String → JobConfig B
  unfolding symlink_commands utilities env_vars join_path
  script_job c tools_image = record {
    name_prefix = c.feature_name <> "-setup";
    namespace_ = "k4all-operator-system";
    image = tools_image;
    command = "/bin/bash" ∷ join_path "/usr/local/bin" c.script_name ∷ [];
    service_account = "k4all-operator-controller-manager";
    labels = feature_labels c.feature_name;
    mount_host_root = true;
    host_root_mount_path = "/host";
    init_script = setup_script (symlink_commands (utilities c));
    env_vars = env_vars c.env;
    additional_mounts = add_k4all_mounts;
    backoff_limit = 0;
    output_callback = none;
    delete_after_completion = false;
  }

  unfoldable pub direct_job : FeatureScriptConfig → String → JobConfig B
  unfolding env_vars
  direct_job c tools_image = record {
    name_prefix = c.feature_name <> "-setup-direct";
    namespace_ = "k4all-operator-system";
    image = tools_image;
    command = "/bin/bash" ∷ ("/host/usr/local/bin/" <> c.script_name) ∷ [];
    service_account = "k4all-operator-controller-manager";
    labels = feature_labels c.feature_name;
    mount_host_root = true;
    host_root_mount_path = "/host";
    init_script = "";
    env_vars = env_vars c.env;
    additional_mounts = add_k4all_mounts;
    backoff_limit = 0;
    output_callback = none;
    delete_after_completion = false;
  }

  -- The error of the job, wrapped.
  unfoldable pub script_result : String → Finished B → Finished B
  script_result text finished = elim finished.error [
    | none ↦ finished
    | some e ↦ record finished { error = some (wrap text e) }
  ]

  unfoldable pub run_feature_script :
      (E : Env) → FeatureScriptConfig → String → Shared B → Program E (Finished B)
  unfolding script_job script_result
  run_feature_script E c tools_image shared = do
    finished ← run_job E (script_job c tools_image) shared
    pure (script_result ("failed to run " <> c.feature_name <> " setup job") finished)

  unfoldable pub run_feature_script_direct :
      (E : Env) → FeatureScriptConfig → String → Shared B → Program E (Finished B)
  unfolding direct_job script_result
  run_feature_script_direct E c tools_image shared = do
    finished ← run_job E (direct_job c tools_image) shared
    pure (script_result ("failed to run " <> c.feature_name <> " setup job (direct mode)") finished)
