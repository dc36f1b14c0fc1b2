-- ===== src/JobRunner/Run.antt =====
-- RunJob.
pub mod Invalid
pub mod OwnJob
pub mod Completed
use k4all_operator.Base.{
  ℕ, String, ◌<>◌, ◌==◌, ◌&&◌, ◌||◌, Option, none, some, Bool, true, false, List, [], ◌∷◌,
  if◌then◌else◌,
}
use k4all_operator.Base.Decimal.{format_int}
use k4all_operator.Base.Dict.{insert}
use k4all_operator.Base.Effect.{
  Error, other, wrap, Result, pure, fail, lift, ok, handle, ◌>>=◌, ◌>>◌, ignore,
}
use k4all_operator.JobRunner.Build.{join, wrap_command, build_job}
use k4all_operator.JobRunner.Scripts.{init_wrapper}
use k4all_operator.JobRunner.Types.{JobConfig, Callback, Shared, Finished}
use k4all_operator.JobRunner.Wait.{wait_for_job_completion}
use k4all_operator.World.{Env, Program, perform, unix_now}
use k4all_operator.World.Objects.{NamespacedName, Kind, Pod}
use k4all_operator.World.Requests.{get_object, create_object, delete_object, list_pods}

-- The first checks of RunJob.
unfoldable pub invalid : {B : Type 0} → JobConfig B → Option Error
invalid c =
    if c.image == ""
    then some (other "job image cannot be empty")
    else elim c.command [ [] ↦ some (other "job command cannot be empty") | first ∷ more ↦ none ]

-- The defaults. A job is always deleted after its completion, whatever the configuration says.
unfoldable pub with_defaults : {B : Type 0} → JobConfig B → JobConfig B
with_defaults c = record c {
  namespace_ = if c.namespace_ == "" then "k4all-operator-system" else c.namespace_;
  delete_after_completion = true;
  host_root_mount_path =
      if c.mount_host_root && c.host_root_mount_path == "" then "/host" else c.host_root_mount_path;
}

-- The command of the container.
unfoldable pub command_of : {B : Type 0} → JobConfig B → Result (List String)
unfolding wrap_command join
command_of c =
    if c.init_script == ""
    then wrap_command c.command
    else ok ("/bin/bash" ∷ "-c" ∷ init_wrapper c.init_script (join c.command) ∷ [])

module _ (E : Env) where
  -- Errors are logged.
  unfoldable pub delete_pods : List Pod → Program E Unit
  delete_pods [] = pure tt
  delete_pods (pod ∷ pods) =
      let rest = delete_pods pods in
      do
        ignore (
            perform E
              (delete_object Kind.pod (record { name = pod.name; namespace_ = pod.namespace_ })))
        rest

  unfoldable pub clean_up : NamespacedName → Program E Unit
  unfolding delete_pods
  clean_up key =
      handle (perform E (get_object Kind.job key)) (λ e. pure tt)
        λ job. do
          handle (perform E (list_pods key.namespace_ key.name)) (λ e. pure tt) delete_pods
          ignore (perform E (delete_object Kind.job key))

  module _ {B : Type 0} where
    -- The callback is stored under the job's name.
    unfoldable pub register : NamespacedName → Option (Callback B) → Shared B → Shared B
    register key none shared = shared
    register key (some callback) shared = record shared {
      output_callbacks =
          insert (key.namespace_ <> "/" <> key.name) callback shared.output_callbacks;
    }

    -- From the job's name on, with the defaults filled in.
    unfoldable pub run_named : JobConfig B → NamespacedName → Shared B → Program E (Finished B)
    unfolding command_of build_job register clean_up
    run_named c key shared = do
      command ← lift (command_of c)
      let registered = register key c.output_callback shared
      handle (perform E (create_object Kind.job (build_job c key.name command)))
          (λ e. pure (record { error = some (wrap "failed to create job" e); shared = registered }))
          λ _. do
            finished ← wait_for_job_completion E key registered
            if c.delete_after_completion then clean_up key else pure tt
            pure finished

    -- After the first checks, which ended with this error, if any.
    unfoldable pub run_checked : Option Error → JobConfig B → Shared B → Program E (Finished B)
    unfolding with_defaults run_named
    run_checked (some e) c shared = pure (record { error = some e; shared = shared })
    run_checked none c shared = do
      time ← unix_now E
      let job_name : String = c.name_prefix <> "-" <> format_int time
      run_named (with_defaults c)
          (record { name = job_name; namespace_ = (with_defaults c).namespace_ }) shared

    unfoldable pub run_job : JobConfig B → Shared B → Program E (Finished B)
    unfolding invalid run_checked
    run_job c shared = run_checked (invalid c) c shared
