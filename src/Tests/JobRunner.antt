-- ===== src/Tests/JobRunner.antt =====
-- Runs of the job runner.
use k4all_operator.Base.{arith, ◌≡◌, ◌<>◌, refl, none, some, true, [], ◌∷◌}
use k4all_operator.Base.Effect.{ok, handle, ignore, ◌>>=◌}
use k4all_operator.Base.Dict.{insert, lookup}
use k4all_operator.Base.Decimal.{format_int}
use k4all_operator.Base.Int.{pos}
use k4all_operator.Base.Text.{trim_space}
use k4all_operator.JobRunner.Build.{build_job, has_prefix, join}
use k4all_operator.JobRunner.Build.Mounts.{mount_names, volume_names, build_job_mounts}
use k4all_operator.JobRunner.Run.{
  command_of, with_defaults, invalid, register, delete_pods, clean_up, run_named, run_checked,
  run_job,
}
use k4all_operator.JobRunner.Run.Completed.{Completed, run_job-Completed}
use k4all_operator.JobRunner.Commands.{
  Ran, empty_buffers, helm_markers, helm_config, helm_result, run_helm_command, run_host_command,
  collect_output, index_from, cut, append_sections, slice, size, take_chars, drop_chars,
}
use k4all_operator.JobRunner.Commands.Names.{IsClock, ShortName, commands-ShortName}
use k4all_operator.JobRunner.Commands.Positions.{starts_not_in}
use k4all_operator.JobRunner.Commands.Sections.{log, InOrder, collect_output-sections}
use k4all_operator.JobRunner.Commands.Ended.{HelmRun, run_helm_command-HelmRun}
use k4all_operator.JobRunner.Run.OwnJob.{OwnJob, job_key, run_job-OwnJob}
use k4all_operator.JobRunner.Types.{JobConfig, Shared}
use k4all_operator.JobRunner.Wait.{
  first_looks, decide, is_complete, callback_of, collect_pod, collect, collect_logs,
  wait_for_job_completion,
}
use k4all_operator.Tests.Memory.{memory, answer}
use k4all_operator.Tests.Memory.Laws.{polling}
use k4all_operator.Tests.Samples.{start}
use k4all_operator.World.{Env, looked, perform, pause, unix_now}
use k4all_operator.World.Emits.{Emits, Emitted}
use k4all_operator.World.Polling.{IsPolling}
use k4all_operator.World.Objects.{NamespacedName, Job}
use k4all_operator.World.Requests.{Sys}

abbrev config : JobConfig Unit
config = record {
  name_prefix = "job";
  namespace_ = "ns";
  image = "tools";
  command = [];
  service_account = "";
  labels = [];
  mount_host_root = true;
  host_root_mount_path = "/host";
  init_script = "";
  env_vars = [];
  additional_mounts = [];
  backoff_limit = 2;
  output_callback = none;
  delete_after_completion = true;
}

abbrev no_callbacks : Shared Unit
no_callbacks = record { output_callbacks = []; output = tt }

build_job_mounts_example :
    mount_names (build_job config "job-1" []) ≡ volume_names (build_job config "job-1" [])
build_job_mounts_example = build_job_mounts config "job-1" []

abbrev job_name : NamespacedName
job_name = record { name = "job-1"; namespace_ = "ns" }

abbrev complete_job : Job
complete_job = record (build_job config "job-1" []) {
  conditions = (record { type = "Complete"; status = "True"; reason = "" }) ∷ [];
}

abbrev with_job : Sys memory.State memory.Unstructured
with_job = record start { state = record start.state { job = some complete_job } }

abbrev listing : JobConfig Unit
listing = record config { command = "ls" ∷ [] }

run_job-Completed_example :
    Completed memory
      (with_defaults listing)
      (job_key memory listing start)
      (looked memory start)
      (run_job memory listing no_callbacks start).1
unfolding with_defaults command_of invalid register delete_pods clean_up run_named run_checked
    run_job build_job first_looks decide is_complete callback_of collect_pod collect collect_logs
    wait_for_job_completion perform pause unix_now answer handle ignore ◌>>=◌ lookup format_int
run_job-Completed_example =
    run_job-Completed memory polling listing no_callbacks
      (record { error = none; shared = no_callbacks }) start refl refl

run_job-OwnJob_example :
    Emitted
      (OwnJob (job_key memory listing start))
      start.trace
      (run_job memory listing no_callbacks start).1.trace
run_job-OwnJob_example = run_job-OwnJob memory polling listing no_callbacks start

-- Both sections of a log, without the space around them.
cuts :
    collect_output helm_markers "pod" "script-runner"
      ("=== Helm Command Output ===\nv1\n=== Helm Command Error Output ===\n"
        <> "=== End of Helm Command Output ===\n")
      empty_buffers
    ≡ ok (record { output = "v1"; error_output = "" })
unfolding collect_output index_from cut append_sections slice size take_chars drop_chars trim_space
    has_prefix
cuts = refl

abbrev listed : Ran
listed = record {
  output = "";
  error = none;
  output_callbacks = ("ns/helm-100-101", collect_output helm_markers) ∷ [];
}

run_helm_command-HelmRun_example :
    HelmRun memory "ns" "tools"
      ("list" ∷ [])
      []
      listed.output
      start
      (run_helm_command memory "ns" "tools" ("list" ∷ []) [] start).1
unfolding run_helm_command helm_config helm_result join insert with_defaults command_of invalid
    register delete_pods clean_up run_named run_checked run_job build_job first_looks decide
    is_complete callback_of collect_pod collect collect_logs wait_for_job_completion perform pause
    unix_now answer handle ignore ◌>>=◌ lookup format_int
run_helm_command-HelmRun_example =
    run_helm_command-HelmRun memory polling "ns" "tools" ("list" ∷ []) [] listed start refl refl

sample_InOrder : InOrder helm_markers "Running\n" "v1\n" "" "\nbye\n"
unfolding starts_not_in
sample_InOrder = record { output_first = refl; error_first = refl; end_first = refl }

collect_output-sections_example :
    collect_output helm_markers "pod" "script-runner"
      (log helm_markers "Running\n" "v1\n" "" "\nbye\n")
      empty_buffers
    ≡ ok (record {
      output = empty_buffers.output <> trim_space "v1\n";
      error_output = empty_buffers.error_output <> trim_space "";
    })
collect_output-sections_example =
    collect_output-sections helm_markers "Running\n" "v1\n" "" "\nbye\n" "pod" "script-runner"
      empty_buffers sample_InOrder

-- The world in memory at a fixed time.
abbrev at_noon : Env
at_noon = record memory { clock = λ m. (pos 1732636800, m) }

at_noon-IsPolling : IsPolling at_noon
at_noon-IsPolling = record { keeps = polling.keeps; met = polling.met }

at_noon-IsClock : IsClock at_noon
at_noon-IsClock = record {
  seconds = λ m. 1732636800;
  clock-seconds = λ m. refl;
  seconds-lt = λ m. omega arith;
}

commands-ShortName_example :
    Emits at_noon ShortName (run_helm_command at_noon "ns" "tools" ("list" ∷ []) [])
    × Emits at_noon ShortName (run_host_command at_noon "ns" "tools" ("list" ∷ []) [])
commands-ShortName_example =
    commands-ShortName at_noon at_noon-IsClock at_noon-IsPolling "ns" "tools" ("list" ∷ []) []
