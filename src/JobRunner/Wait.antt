-- ===== src/JobRunner/Wait.antt =====
-- waitForJobCompletion and the collection of the logs.
pub mod Complete
use k4all_operator.Base.{
  ℕ, zero, suc, String, ◌<>◌, ◌==◌, ◌&&◌, nat_eq, Option, none, some, Bool, true, false, List, [],
  ◌∷◌, if◌then◌else◌,
}
use k4all_operator.Base.Dict.{Dict, lookup}
use k4all_operator.Base.Effect.{Error, other, Result, pure, fail, lift, handle, ◌>>=◌, ◌>>◌}
use k4all_operator.JobRunner.Types.{Callback, Shared, Finished}
use k4all_operator.World.{Env, Program, perform, pause}
use k4all_operator.World.Objects.{NamespacedName, Kind, Job, JobCondition, Pod}
use k4all_operator.World.Requests.{get_object, list_pods, pod_logs}

module _ (E : Env) (key : NamespacedName) where
  -- The first loop: the job as it was last read, in at most `looks` reads.
  unfoldable pub first_looks : ℕ → Option Job → Program E (Option Job)
  first_looks zero last = pure last
  first_looks (suc looks) last =
      handle (perform E (get_object Kind.job key))
        (λ e. let rest = first_looks looks last in do pause E 5; rest)
        (λ job.
          let rest = first_looks looks (some job) in
          if nat_eq job.active 0 then pure (some job) else (do pause E 5; rest))

  -- The first condition that decides.
  unfoldable pub decide : List JobCondition → Program E Bool
  decide [] = pure false
  decide (condition ∷ conditions) =
      let rest = decide conditions in
      if condition.type == "Complete" && condition.status == "True"
      then pure true
      else if condition.type == "Failed" && condition.status == "True"
      then fail (other ("job failed: " <> condition.reason))
      else rest

  -- The condition of the poll.
  unfoldable pub is_complete : Program E Bool
  unfolding decide
  is_complete = do job ← perform E (get_object Kind.job key); decide job.conditions

  module _ {B : Type 0} where
    -- The callback of the job, if the job is annotated and the map has one.
    unfoldable pub callback_of : Option Job → Dict (Callback B) → Option (Callback B)
    callback_of none callbacks = none
    callback_of (some job) callbacks = elim job.template.annotations [
      | none ↦ none
      | some annotations ↦ elim (lookup "jobrunner.k4all.io/has-output-callback" annotations) [
        | none ↦ none
        | some value ↦ lookup (key.namespace_ <> "/" <> key.name) callbacks
      ]
    ]

    -- The logs of a pod's containers; one that cannot be read is skipped.
    unfoldable pub collect_pod : Callback B → Pod → List String → B → Program E B
    collect_pod callback pod [] output = pure output
    collect_pod callback pod (container ∷ containers) output =
        handle (perform E (pod_logs pod.name pod.namespace_ container))
          (λ e. collect_pod callback pod containers output)
          (λ logs. do
            changed ← lift (callback pod.name container logs output)
            collect_pod callback pod containers changed)

    unfoldable pub collect : Callback B → List Pod → B → Program E B
    unfolding collect_pod
    collect callback [] output = pure output
    collect callback (pod ∷ pods) output = do
      changed ← collect_pod callback pod pod.containers output
      collect callback pods changed

    -- After the poll, which ended with this error, if any.
    unfoldable pub collect_logs :
        Option (Callback B) → Option Error → Shared B → Program E (Finished B)
    unfolding collect
    collect_logs none error shared = pure (record { error = error; shared = shared })
    collect_logs (some callback) error shared =
        handle (perform E (list_pods key.namespace_ key.name))
          (λ e. pure (record { error = some e; shared = shared }))
          (λ pods. do
            output ← collect callback pods shared.output
            pure (record { error = error; shared = record shared { output = output } }))

    unfoldable pub wait_for_job_completion : Shared B → Program E (Finished B)
    unfolding first_looks callback_of is_complete collect_logs
    wait_for_job_completion shared = do
      job ← first_looks 10 none
      let callback = callback_of job shared.output_callbacks
      handle (E.poll 5 600 true is_complete) (λ e. collect_logs callback (some e) shared)
          (λ _. collect_logs callback none shared)
