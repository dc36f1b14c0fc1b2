-- ===== src/FeatureScripts/Ended.antt =====
-- When the job of a feature script ends without an error.
use k4all_operator.Base.{◌≡◌, subst, String, ◌<>◌, none, arith}
use k4all_operator.Base.Effect.{ok}
use k4all_operator.Base.Triple.{bind-ok}
use k4all_operator.FeatureScripts.Runner.{
  FeatureScriptConfig, script_job, script_result, run_feature_script,
}
use k4all_operator.JobRunner.Run.{run_job, with_defaults}
use k4all_operator.JobRunner.Run.Completed.{Completed, run_job-Completed}
use k4all_operator.JobRunner.Run.OwnJob.{job_key}
use k4all_operator.Base.Decimal.{format_int}
use k4all_operator.JobRunner.Types.{Shared, Finished}
use k4all_operator.World.{Env, looked}
use k4all_operator.World.Polling.{IsPolling}
use k4all_operator.World.Requests.{Sys}

script_result-error :
    {B : Type 0} (text : String) (finished : Finished B)
    → (script_result text finished).error ≡ none
    → finished.error ≡ none
unfolding script_result
script_result-error text finished quiet = ground (arith, quiet)

-- RunFeatureScript returns nil only if, right after it looked at the clock, the API server accepted
-- the job of the script, in the operator's namespace and under the name of the feature with the
-- time; and then, on the way to the state in which it ends, the job of that name and namespace was
-- read with a condition that says that it is complete.
pub run_feature_script-Completed :
    {B : Type 0} (E : Env) (W : IsPolling E) (c : FeatureScriptConfig) (tools_image : String)
    (shared : Shared B) (finished : Finished B) (s : Sys E.State E.Unstructured)
    → (run_feature_script E c tools_image shared s).0 ≡ ok finished
    → finished.error ≡ none
    → Completed E
        (with_defaults (script_job {B = B} c tools_image))
        (record {
          name = (c.feature_name <> "-setup") <> "-" <> format_int (E.clock s.state).0;
          namespace_ = "k4all-operator-system";
        })
        (looked E s)
        (run_feature_script E c tools_image shared s).1
unfolding run_feature_script script_job with_defaults
run_feature_script-Completed {B} E W c tools_image shared finished s done quiet =
    let (ran, ended, last, ends) =
      bind-ok (run_job E (script_job c tools_image) shared) _ s finished done in
    let fine =
      script_result-error ("failed to run " <> c.feature_name <> " setup job") ran
        (ground (arith, last, quiet)) in
    subst
      (Completed E (with_defaults (script_job {B = B} c tools_image))
        (job_key E (script_job {B = B} c tools_image) s) (looked E s))
      ends (run_job-Completed E W (script_job c tools_image) shared ran s ended fine)
