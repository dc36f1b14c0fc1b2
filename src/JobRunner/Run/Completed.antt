-- ===== src/JobRunner/Run/Completed.antt =====
-- When RunJob ends without an error.
use k4all_operator.Base.{
  ◌≡◌, ◌∙◌, subst, String, Option, none, some, List, arith, inl, inr, if◌then◌else◌,
}
use k4all_operator.Base.Effect.{Error, ok, pure, lift, Result-cases, handle, ◌>>=◌, ◌>>◌}
use k4all_operator.Base.Triple.{bind-ok}
use k4all_operator.Base.Keeps.{Keeps-if, Keeps-pure}
use k4all_operator.JobRunner.Run.OwnJob.{job_key, clean_up-Stays}
use k4all_operator.JobRunner.Build.{build_job}
use k4all_operator.JobRunner.Run.{
  invalid, with_defaults, command_of, register, clean_up, run_named, run_checked, run_job,
}
use k4all_operator.JobRunner.Types.{JobConfig, Shared, Finished}
use k4all_operator.JobRunner.Wait.{wait_for_job_completion}
use k4all_operator.JobRunner.Wait.Complete.{
  SeenComplete, SeenComplete-then, wait_for_job_completion-SeenComplete,
}
use k4all_operator.World.{Env, perform, looked, unix_now}
use k4all_operator.World.Objects.{NamespacedName, Kind}
use k4all_operator.World.Polling.{IsPolling}
use k4all_operator.World.Requests.{Sys, create_object}

-- From the first state on, at once, the API server accepted the job of the configuration, with the
-- command that the script and the command make; and then, on the way to the last state, the job
-- was read with a condition that says that it is complete.
abbrev pub Completed :
    (E : Env) {B : Type 0}
    → JobConfig B
    → NamespacedName
    → Sys E.State E.Unstructured
    → Sys E.State E.Unstructured
    → Type 0
Completed E c key first last =
    (command : List String) × (command_of c ≡ ok command)
    × ((perform E (create_object Kind.job (build_job c key.name command)) first).0 ≡ ok tt)
    × SeenComplete E key (perform E (create_object Kind.job (build_job c key.name command)) first).1
        last

module _ (E : Env) {B : Type 0} (W : IsPolling E) where
  awaited :
      (c : JobConfig B) (key : NamespacedName) (shared : Shared B) (finished : Finished B)
      (s : Sys E.State E.Unstructured)
      → let ends = wait_for_job_completion E key shared >>= (λ waited.
        (if c.delete_after_completion then clean_up E key else pure tt) >> pure waited) in
        (ends s).0 ≡ ok finished → finished.error ≡ none → SeenComplete E key s (ends s).1
  awaited c key shared finished s done no_error =
      let clean = if c.delete_after_completion then clean_up E key else pure tt in
      let (waited, got, rest, at1) =
        bind-ok (wait_for_job_completion E key shared) (λ waited. clean >> pure waited) s finished
          done in
      let (_, _, last, at2) = bind-ok clean (λ _. pure waited) _ finished rest in
      let seen =
        wait_for_job_completion-SeenComplete E key W shared finished s (ground (arith, got, last))
          no_error in
      subst (SeenComplete E key s) (at2 ∙ at1) (
        SeenComplete-then E key W s clean _
          (λ old.
            Keeps-if c.delete_after_completion _ _ (λ _. clean_up-Stays E W key old)
              (λ _. Keeps-pure tt))
          seen)

  run_named-Completed :
      (c : JobConfig B) (key : NamespacedName) (shared : Shared B) (finished : Finished B)
      (s : Sys E.State E.Unstructured)
      → (run_named E c key shared s).0 ≡ ok finished
      → finished.error ≡ none
      → Completed E c key s (run_named E c key shared s).1
  unfolding run_named handle
  run_named-Completed c key shared finished s done no_error =
      let (command, made, rest, ends) = bind-ok (lift (command_of c)) _ s finished done in
      let create = perform E (create_object Kind.job (build_job c key.name command)) in
      elim (Result-cases (create s).0) [
        | inl (_, got) ↦ (
          command,
          made,
          got,
          subst (SeenComplete E key (create s).1) (ground (arith, got, ends)) (
              awaited c key (register E key c.output_callback shared) finished (create s).1
                (ground (arith, got, rest)) no_error),
        )
        | inr (inl (e, got)) ↦ ground (arith, got, rest, no_error)
        | inr (inr (m, got)) ↦ ground (arith, got, rest)
      ]

  run_checked-Completed :
      (refusal : Option Error) (c : JobConfig B) (shared : Shared B) (finished : Finished B)
      (s : Sys E.State E.Unstructured)
      → (run_checked E refusal c shared s).0 ≡ ok finished
      → finished.error ≡ none
      → Completed E
          (with_defaults c)
          (job_key E c s)
          (looked E s)
          (run_checked E refusal c shared s).1
  unfolding run_checked unix_now ◌>>=◌ handle
  run_checked-Completed (some e) c shared finished s done no_error = ground (arith, done, no_error)
  run_checked-Completed none c shared finished s done no_error =
      run_named-Completed (with_defaults c) (job_key E c s) shared finished (looked E s) done
        no_error

  -- RunJob returns nil only if, right after it looked at the clock, the API server accepted the job
  -- that it builds of the configuration with its defaults, under the name with the prefix and the
  -- time; and then, on the way to the state in which it ends, the job of that name and namespace
  -- was read with a condition that says that it is complete.
  pub run_job-Completed :
      (c : JobConfig B) (shared : Shared B) (finished : Finished B) (s : Sys E.State E.Unstructured)
      → (run_job E c shared s).0 ≡ ok finished
      → finished.error ≡ none
      → Completed E (with_defaults c) (job_key E c s) (looked E s) (run_job E c shared s).1
  unfolding run_job
  run_job-Completed c shared finished s done no_error =
      run_checked-Completed (invalid c) c shared finished s done no_error
