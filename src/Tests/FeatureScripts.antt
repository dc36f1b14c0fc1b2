-- ===== src/Tests/FeatureScripts.antt =====
-- Runs of a feature script.
use k4all_operator.Base.{◌≡◌, refl, ◌==◌, ◌<>◌, none, some, [], ◌∷◌, if◌then◌else◌}
use k4all_operator.Base.Decimal.{format_int}
use k4all_operator.Base.Dict.{lookup}
use k4all_operator.Base.Effect.{handle, ignore, ◌>>=◌}
use k4all_operator.FeatureScripts.Ended.{run_feature_script-Completed}
use k4all_operator.FeatureScripts.Environment.{value_of, container_env, script_job-value_of}
use k4all_operator.FeatureScripts.Runner.{
  FeatureScriptConfig, script_job, script_result, run_feature_script,
}
use k4all_operator.JobRunner.Build.{build_job, join}
use k4all_operator.JobRunner.Run.{
  command_of, with_defaults, invalid, register, delete_pods, clean_up, run_named, run_checked,
  run_job,
}
use k4all_operator.JobRunner.Run.Completed.{Completed}
use k4all_operator.JobRunner.Types.{Shared}
use k4all_operator.JobRunner.Wait.{
  first_looks, decide, is_complete, callback_of, collect_pod, collect, collect_logs,
  wait_for_job_completion,
}
use k4all_operator.Tests.Memory.{memory, answer}
use k4all_operator.Tests.Memory.Laws.{polling}
use k4all_operator.Tests.Samples.{start}
use k4all_operator.World.{looked, perform, pause, unix_now}

abbrev feature : FeatureScriptConfig
feature = record {
  feature_name = "virt";
  script_name = "setup-feature-virt.sh";
  additional_utilities = [];
  env = ("MODE", "fast") ∷ ("K4ALL_DEBUG", "false") ∷ [];
}

abbrev no_callbacks : Shared Unit
no_callbacks = record { output_callbacks = []; output = tt }

script_job-value_of_example :
    value_of "K4ALL_DEBUG"
      (container_env (with_defaults (script_job {B = Unit {0}} feature "tools")) "virt-1" [])
    ≡ (if "K4ALL_DEBUG" == "K4ALL_DEBUG" then some "true" else lookup "K4ALL_DEBUG" feature.env)
unfolding lookup
script_job-value_of_example =
    script_job-value_of Unit feature "tools" "virt-1" "K4ALL_DEBUG" [] (refl, (refl, tt))

run_feature_script-Completed_example :
    Completed memory
      (with_defaults (script_job {B = Unit {0}} feature "tools"))
      (record {
        name = ("virt" <> "-setup") <> "-" <> format_int (memory.clock start.state).0;
        namespace_ = "k4all-operator-system";
      })
      (looked memory start)
      (run_feature_script memory feature "tools" no_callbacks start).1
unfolding run_feature_script script_result script_job join with_defaults command_of invalid register
    delete_pods clean_up run_named run_checked run_job build_job first_looks decide is_complete
    callback_of collect_pod collect collect_logs wait_for_job_completion perform pause unix_now
    answer handle ignore ◌>>=◌ lookup format_int
run_feature_script-Completed_example =
    run_feature_script-Completed memory polling feature "tools" no_callbacks
      (record { error = none; shared = no_callbacks }) start refl refl
