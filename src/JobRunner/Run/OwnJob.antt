-- ===== src/JobRunner/Run/OwnJob.antt =====
-- What RunJob may call.
use k4all_operator.Base.{
  ℕ, zero, suc, String, ◌≡◌, refl, ◌==◌, ◌&&◌, ◌<>◌, Option, none, some, true, List, [], ◌∷◌,
}
use k4all_operator.Base.Decimal.{format_int}
use k4all_operator.Base.Effect.{Error, ◌>>=◌, handle}
use k4all_operator.Base.Keeps.{
  Keeps, Keeps-pure, Keeps-bind, Keeps-handle, Keeps-ignore, Keeps-if, Keeps-lift, Keeps-fail,
}
use k4all_operator.JobRunner.Build.{build_job}
use k4all_operator.JobRunner.Run.{
  command_of, delete_pods, clean_up, run_named, run_checked, run_job, invalid, with_defaults,
}
use k4all_operator.JobRunner.Types.{JobConfig, Callback, Shared}
use k4all_operator.JobRunner.Wait.{
  first_looks, decide, is_complete, collect_pod, collect, collect_logs, wait_for_job_completion,
}
use k4all_operator.World.{Env, perform, unix_now}
use k4all_operator.World.Emits.{
  Emitted, here, Since, perform-Since, get_job-Since, list_pods-Since, pod_logs-Since, pause-Since,
  Origin, from_trace, waits-Since,
}
use k4all_operator.World.Objects.{NamespacedName, Kind, Job, JobCondition, Pod}
use k4all_operator.World.Polling.{IsPolling}
use k4all_operator.World.Requests.{Request, Sys, create_object, delete_object}

-- Reads of jobs, pods and logs, the creation of the job of this name and namespace, its deletion,
-- and deletions of pods.
abbrev pub OwnJob : NamespacedName → {U : Type 0} → Request U → Type 0
OwnJob key (Request.get_object Kind.job n) = n ≡ key
OwnJob key (Request.list_pods namespace_ job) = (namespace_ ≡ key.namespace_) × (job ≡ key.name)
OwnJob key (Request.pod_logs _ _ _) = Unit
OwnJob key (Request.create_object Kind.job o) =
    (o.name ≡ key.name) × (o.namespace_ ≡ key.namespace_)
OwnJob key (Request.delete_object Kind.job n) = n ≡ key
OwnJob key (Request.delete_object Kind.pod _) = Unit
OwnJob key _ = ⊥

module _ (E : Env) (W : IsPolling E) (key : NamespacedName) (old : Origin E (OwnJob key)) where
  abbrev Stays : Sys E.State E.Unstructured → Type 0
  Stays = Since (OwnJob key) old

  get-Stays : Keeps {A = Job} Stays (perform E (Request.get_object Kind.job key))
  get-Stays = get_job-Since E (OwnJob key) old key refl

  list-Stays : Keeps {A = List Pod} Stays (perform E (Request.list_pods key.namespace_ key.name))
  list-Stays = list_pods-Since E (OwnJob key) old key.namespace_ key.name (refl, refl)

  delete_pods-Stays : (pods : List Pod) → Keeps Stays (delete_pods E pods)
  unfolding delete_pods
  delete_pods-Stays [] = Keeps-pure tt
  delete_pods-Stays (pod ∷ pods) =
      Keeps-bind _ _
        (Keeps-ignore _ (perform-Since E (OwnJob key) old (delete_object Kind.pod _) tt))
        λ _. delete_pods-Stays pods

  pub clean_up-Stays : Keeps Stays (clean_up E key)
  unfolding clean_up
  clean_up-Stays =
      Keeps-handle _ _ _ get-Stays (λ e. Keeps-pure tt)
        λ job.
          Keeps-bind _ _ (Keeps-handle _ _ _ list-Stays (λ e. Keeps-pure tt) delete_pods-Stays)
            λ _. Keeps-ignore _ (perform-Since E (OwnJob key) old (delete_object Kind.job key) refl)

  pub first_looks-Stays :
      (looks : ℕ) (last : Option Job) → Keeps Stays (first_looks E key looks last)
  unfolding first_looks
  first_looks-Stays zero last = Keeps-pure last
  first_looks-Stays (suc looks) last =
      Keeps-handle _ _ _ get-Stays
        (λ e. Keeps-bind _ _ (pause-Since E (OwnJob key) old 5) λ _. first_looks-Stays looks last)
        λ job.
          Keeps-if _ _ _ (λ _. Keeps-pure (some job))
            λ _.
              Keeps-bind _ _ (pause-Since E (OwnJob key) old 5)
                λ _. first_looks-Stays looks (some job)

  pub decide-Stays : (conditions : List JobCondition) → Keeps Stays (decide E key conditions)
  unfolding decide
  decide-Stays [] = Keeps-pure _
  decide-Stays (c ∷ cs) =
      Keeps-if (c.type == "Complete" && c.status == "True") _ _ (λ _. Keeps-pure true)
        λ _.
          Keeps-if (c.type == "Failed" && c.status == "True") _ _ (λ _. Keeps-fail _)
            λ _. decide-Stays cs

  pub is_complete-Stays : Keeps Stays (is_complete E key)
  unfolding is_complete
  is_complete-Stays = Keeps-bind _ _ get-Stays (λ job. decide-Stays job.conditions)

  module _ {B : Type 0} where
    collect_pod-Stays :
        (callback : Callback B) (pod : Pod) (containers : List String) (output : B)
        → Keeps Stays (collect_pod E key callback pod containers output)
    unfolding collect_pod
    collect_pod-Stays callback pod [] output = Keeps-pure output
    collect_pod-Stays callback pod (container ∷ containers) output =
        Keeps-handle _ _ _ (pod_logs-Since E (OwnJob key) old _ _ _ tt)
          (λ e. collect_pod-Stays callback pod containers output)
          λ logs.
            Keeps-bind _ _ (Keeps-lift _)
              λ changed. collect_pod-Stays callback pod containers changed

    collect-Stays :
        (callback : Callback B) (pods : List Pod) (output : B)
        → Keeps Stays (collect E key callback pods output)
    unfolding collect
    collect-Stays callback [] output = Keeps-pure output
    collect-Stays callback (pod ∷ pods) output =
        Keeps-bind _ _ (collect_pod-Stays callback pod pod.containers output)
          λ changed. collect-Stays callback pods changed

    pub collect_logs-Stays :
        (callback : Option (Callback B)) (e : Option Error) (shared : Shared B)
        → Keeps Stays (collect_logs E key callback e shared)
    unfolding collect_logs
    collect_logs-Stays none e shared = Keeps-pure _
    collect_logs-Stays (some callback) e shared =
        Keeps-handle _ _ _ list-Stays (λ e. Keeps-pure _)
          λ pods. Keeps-bind _ _ (collect-Stays callback pods shared.output) λ _. Keeps-pure _

    wait-Stays : (shared : Shared B) → Keeps Stays (wait_for_job_completion E key shared)
    unfolding wait_for_job_completion
    wait-Stays shared = Keeps-bind _ _ (first_looks-Stays 10 none) λ job.
        Keeps-handle _ _ _
          (W.keeps Stays 5 600 true _ (waits-Since E (OwnJob key) old) is_complete-Stays)
          (λ e. collect_logs-Stays _ (some e) shared) (λ _. collect_logs-Stays _ none shared)

    run_named-Stays :
        (c : JobConfig B) (shared : Shared B)
        → c.namespace_ ≡ key.namespace_
        → Keeps Stays (run_named E c key shared)
    unfolding run_named build_job
    run_named-Stays c shared same = Keeps-bind _ _ (Keeps-lift (command_of c)) λ command.
        Keeps-handle _ _ _
          (perform-Since E (OwnJob key) old (create_object Kind.job _) (refl, same))
          (λ e. Keeps-pure _)
          λ _. Keeps-bind _ _ (wait-Stays _) λ finished.
            Keeps-bind _ _
              (Keeps-if c.delete_after_completion _ _ (λ _. clean_up-Stays) (λ _. Keeps-pure tt))
              λ _. Keeps-pure finished

-- The name of the job that RunJob creates from this state, with the prefix and the time.
abbrev pub job_key :
    (E : Env) {B : Type 0} → JobConfig B → Sys E.State E.Unstructured → NamespacedName
job_key E c s = record {
  name = c.name_prefix <> "-" <> format_int (E.clock s.state).0;
  namespace_ = (with_defaults c).namespace_;
}

module _ (E : Env) (W : IsPolling E) {B : Type 0} where
  run_checked-Since :
      (refusal : Option Error) (c : JobConfig B) (shared : Shared B)
      (s : Sys E.State E.Unstructured) (old : Origin E (OwnJob (job_key E c s)))
      → Since (OwnJob (job_key E c s)) old s
      → Since (OwnJob (job_key E c s)) old (run_checked E refusal c shared s).1
  unfolding run_checked unix_now ◌>>=◌ handle
  run_checked-Since (some e) c shared s old h = h
  run_checked-Since none c shared s old h =
      (run_named-Stays E W (job_key E c s) old (with_defaults c) shared refl).at
        (record s { state = (E.clock s.state).1 }) (h.0, old.kept_clock s h.1)

  pub run_job-Since :
      (c : JobConfig B) (shared : Shared B) (s : Sys E.State E.Unstructured)
      (old : Origin E (OwnJob (job_key E c s)))
      → Since (OwnJob (job_key E c s)) old s
      → Since (OwnJob (job_key E c s)) old (run_job E c shared s).1
  unfolding run_job
  run_job-Since c shared s old h = run_checked-Since (invalid c) c shared s old h

  -- Whatever the world answers, RunJob calls nothing but the creation and the deletion of one job,
  -- reads of it, of the list of its pods and of logs, and deletions of pods. The job's name is the
  -- prefix with the time of the start, and its namespace the one of the configuration with its
  -- defaults.
  pub run_job-OwnJob :
      (c : JobConfig B) (shared : Shared B) (s : Sys E.State E.Unstructured)
      → Emitted (OwnJob (job_key E c s)) s.trace (run_job E c shared s).1.trace
  run_job-OwnJob c shared s =
      (run_job-Since c shared s (from_trace E (OwnJob (job_key E c s)) s.trace) (here, tt)).0
