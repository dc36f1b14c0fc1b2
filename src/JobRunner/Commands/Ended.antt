-- ===== src/JobRunner/Commands/Ended.antt =====
-- When a helm command or a host command ends without an error.
use k4all_operator.Base.{
  ◌≡◌, ◌∙◌, refl, sym, ap, subst, String, Option, none, List, [], ◌∷◌, arith, eq_iff,
}
use k4all_operator.Base.Dict.{Dict}
use k4all_operator.Base.Effect.{Error, ok, pure, ◌>>=◌, handle}
use k4all_operator.Base.Int.{ℤ}
use k4all_operator.Base.Triple.{bind-ok}
use k4all_operator.JobRunner.Commands.{
  Buffers, Ran, helm_config, helm_result, run_helm_command, empty_buffers,
}
use k4all_operator.JobRunner.Run.{run_job, with_defaults}
use k4all_operator.JobRunner.Run.Completed.{Completed, run_job-Completed}
use k4all_operator.JobRunner.Run.OwnJob.{job_key}
use k4all_operator.JobRunner.Types.{JobConfig, Callback, Shared, Finished}
use k4all_operator.World.{Env, Program, looked, unix_now}
use k4all_operator.World.Polling.{IsPolling}
use k4all_operator.World.Requests.{Sys}

helm_result-quiet :
    (e : Option Error) (b : Buffers) (callbacks : Dict (Callback Buffers)) (ran : Ran)
    → helm_result e b callbacks ≡ ran
    → ran.error ≡ none
    → (e ≡ none) × (b ≡ (record { output = ran.output; error_output = "" }))
unfolding helm_result
helm_result-quiet e b callbacks ran is_ran quiet =
    ground (arith, is_ran, quiet, eq_iff b.error_output "")

-- From the first state, the job of the helm command with these arguments was run, on empty buffers,
-- up to the last state: it returned nil and gave this output and nothing on stderr, the API server
-- accepted the job, and then it was read with a condition that says that it is complete.
abbrev pub HelmRun :
    (E : Env)
    → String
    → String
    → List String
    → Dict (Callback Buffers)
    → String
    → Sys E.State E.Unstructured
    → Sys E.State E.Unstructured
    → Type 0
HelmRun E namespace_ tools_image args callbacks output first last =
    let config = helm_config args namespace_ tools_image (E.clock first.state).0 in
    (finished : Finished Buffers) × (run_job E config
        (record { output_callbacks = callbacks; output = empty_buffers }) (looked E first)
      ≡ (ok finished, last))
    × (finished.error ≡ none)
    × (finished.shared.output ≡ (record { output = output; error_output = "" }))
    × Completed E (with_defaults config) (job_key E config (looked E first))
        (looked E (looked E first)) last

-- the job's run and its result, after the look at the clock
abbrev helm_job :
    (E : Env) → String → String → List String → Dict (Callback Buffers) → ℤ → Program E Ran
helm_job E namespace_ tools_image args callbacks time =
    run_job E (helm_config args namespace_ tools_image time)
      (record { output_callbacks = callbacks; output = empty_buffers })
    >>= λ finished.
        pure (helm_result finished.error finished.shared.output finished.shared.output_callbacks)

clocked :
    (E : Env) (namespace_ tools_image : String) (arg : String) (args : List String)
    (callbacks : Dict (Callback Buffers)) (s : Sys E.State E.Unstructured)
    → run_helm_command E namespace_ tools_image (arg ∷ args) callbacks s
      ≡ helm_job E namespace_ tools_image (arg ∷ args) callbacks (E.clock s.state).0 (looked E s)
unfolding run_helm_command unix_now ◌>>=◌ handle
clocked E namespace_ tools_image arg args callbacks s = refl

-- A helm command returns nil only if the run of the job of its script, with the defaults of RunJob,
-- returned nil, and nothing was collected of the output on stderr; in that run the API server
-- accepted the job, and then the job was read with a condition that says that it is complete.
-- What the command returns is then the output that the run collected.
pub run_helm_command-HelmRun :
    (E : Env) (W : IsPolling E) (namespace_ tools_image : String) (args : List String)
    (callbacks : Dict (Callback Buffers)) (ran : Ran) (s : Sys E.State E.Unstructured)
    → (run_helm_command E namespace_ tools_image args callbacks s).0 ≡ ok ran
    → ran.error ≡ none
    → HelmRun E namespace_ tools_image args callbacks ran.output s
        (run_helm_command E namespace_ tools_image args callbacks s).1
unfolding run_helm_command
run_helm_command-HelmRun E W namespace_ tools_image [] callbacks ran s done quiet =
    ground (arith, done, quiet)
run_helm_command-HelmRun E W namespace_ tools_image (arg ∷ args) callbacks ran s done quiet =
    let same = clocked E namespace_ tools_image arg args callbacks s in
    let config : JobConfig Buffers =
      helm_config (arg ∷ args) namespace_ tools_image (E.clock s.state).0 in
    let shared : Shared Buffers = record { output_callbacks = callbacks; output = empty_buffers } in
    let before = looked E s in
    let (finished, ended, last, at2) =
      bind-ok (run_job E config shared)
        (λ finished.
          pure (helm_result finished.error finished.shared.output finished.shared.output_callbacks))
        before ran (rw same at done) in
    let (fine, output) =
      helm_result-quiet finished.error finished.shared.output finished.shared.output_callbacks ran
        (ground (arith, last)) quiet in
    (
      finished,
      λ i. (ended i, (at2 ∙ ap (λ t. t.1) (sym same)) i),
      fine,
      output,
      subst (Completed E (with_defaults config) (job_key E config before) (looked E before))
          (at2 ∙ ap (λ t. t.1) (sym same))
          (run_job-Completed E W config shared finished before ended fine),
    )
