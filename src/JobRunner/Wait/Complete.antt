-- ===== src/JobRunner/Wait/Complete.antt =====
-- When the wait for a job ends without an error.
use k4all_operator.Base.{
  ◌≡◌, ◌≢◌, ◌∙◌, subst, ap, Option, none, some, true, List, [], ◌∷◌, arith, eq_iff, inl, inr, ◌⊎◌,
}
use k4all_operator.Base.Effect.{Error, ok, Result-cases, handle, ◌>>=◌}
use k4all_operator.Base.Triple.{bind-ok}
use k4all_operator.JobRunner.Types.{Callback, Shared, Finished}
use k4all_operator.JobRunner.Wait.{
  first_looks, decide, is_complete, collect_logs, wait_for_job_completion, callback_of,
}
use k4all_operator.JobRunner.Run.OwnJob.{
  OwnJob, first_looks-Stays, decide-Stays, is_complete-Stays, collect_logs-Stays,
}
use k4all_operator.Base.Keeps.{Keeps}
use k4all_operator.World.{Env, Program, called, perform}
use k4all_operator.World.Emits.{Origin, Since, here, waits-Since}
use k4all_operator.World.Emits.Course.{Course, arrived, from_state}
use k4all_operator.World.Objects.{NamespacedName, Kind, Job, JobCondition}
use k4all_operator.World.Polling.{IsPolling}
use k4all_operator.World.Requests.{Sys, get_object}

-- Some condition says that the job is complete.
abbrev pub IsComplete : List JobCondition → Type 0
IsComplete [] = ⊥
IsComplete (c ∷ cs) = ((c.type ≡ "Complete") × (c.status ≡ "True")) ⊎ IsComplete cs

module _ (E : Env) (key : NamespacedName) where
  decide-IsComplete :
      (conditions : List JobCondition) (s : Sys E.State E.Unstructured)
      → (decide E key conditions s).0 ≡ ok true
      → IsComplete conditions
  unfolding decide
  decide-IsComplete [] s done = cc
  decide-IsComplete (c ∷ cs) s done =
      ground (arith, done, eq_iff c.type "Complete", eq_iff c.status "True", decide-IsComplete cs s)

  abbrev start : Sys E.State E.Unstructured → Origin E (OwnJob key)
  start s = from_state E (OwnJob key) s

  abbrev look : Sys E.State E.Unstructured → Sys E.State E.Unstructured
  look s = called E (get_object Kind.job key) s

  -- on the way from the first state to the last, the job was read with a condition that says that
  -- it is complete
  abbrev pub SeenComplete : Sys E.State E.Unstructured → Sys E.State E.Unstructured → Type 0
  SeenComplete first last =
      (before : Sys E.State E.Unstructured) × (job : Job) × Course E first before
      × ((E.respond (get_object Kind.job key) before.state).0 ≡ ok job)
      × IsComplete job.conditions
      × Course E (called E (get_object Kind.job key) before) last

  -- what follows is on the way too
  pub SeenComplete-then :
      {A : Type 0} (W : IsPolling E) (first : Sys E.State E.Unstructured) (m : Program E A)
      (s : Sys E.State E.Unstructured)
      → ((old : Origin E (OwnJob key)) → Keeps (Since (OwnJob key) old) m)
      → SeenComplete first s
      → SeenComplete first (m s).1
  SeenComplete-then W first m s k (before, job, to, got, complete, from) =
      let old : Origin E (OwnJob key) = record (start (look before)) { trace = s.trace } in
      (before, job, to, got, complete, ((k old).at s (here, from)).1)

  is_complete-SeenComplete :
      (W : IsPolling E) (first s last : Sys E.State E.Unstructured)
      → Course E first s
      → is_complete E key s ≡ (ok true, last)
      → SeenComplete first last
  unfolding is_complete perform
  is_complete-SeenComplete W first s last to done =
      let (job, got, decided, ends) =
        bind-ok (perform E (get_object Kind.job key)) (λ job. decide E key job.conditions) s true
          (ap (λ t. t.0) done) in
      (
        s,
        job,
        to,
        got,
        decide-IsComplete job.conditions _ decided,
        subst (Course E (look s)) (ends ∙ ap (λ t. t.1) done) (
            ((decide-Stays E W key (start (look s)) job.conditions).at (look s) (here, arrived)).1),
      )

  module _ {B : Type 0} where
    -- an error of the poll, or one of the list of pods, is returned
    collect_logs-error :
        (callback : Option (Callback B)) (e : Error) (shared : Shared B) (finished : Finished B)
        (s : Sys E.State E.Unstructured)
        → (collect_logs E key callback (some e) shared s).0 ≡ ok finished
        → finished.error ≢ none
    unfolding collect_logs handle ◌>>=◌
    collect_logs-error none e shared finished s done = ground (arith, done)
    collect_logs-error (some callback) e shared finished s done = ground (arith, done)

    polled :
        (W : IsPolling E) (callback : Option (Callback B)) (shared : Shared B)
        (finished : Finished B) (first s : Sys E.State E.Unstructured)
        → Course E first s
        → let ends =
            handle
              (E.poll 5 600 true (is_complete E key))
              (λ e. collect_logs E key callback (some e) shared)
              (λ _. collect_logs E key callback none shared) in
          (ends s).0 ≡ ok finished → finished.error ≡ none → SeenComplete first (ends s).1
    unfolding handle
    polled W callback shared finished first s to done no_error =
        elim (Result-cases (E.poll 5 600 true (is_complete E key) s).0) [
          | inl (_, got) ↦
              let old : Origin E (OwnJob key) = record (start first) { trace = s.trace } in
              let (before, (_, on), met) =
                W.met (Since (OwnJob key) old) 5 600 true (is_complete E key) s
                  (waits-Since E (OwnJob key) old) (is_complete-Stays E W key old) (here, to) got in
              let last = (E.poll 5 600 true (is_complete E key) s).1 in
              let seen = is_complete-SeenComplete W first before last on met in
              rw got (
                SeenComplete-then W first (collect_logs E key callback none shared) last
                  (λ older. collect_logs-Stays E W key older callback none shared) seen)
          | inr (inl (e, got)) ↦ absurd (
              collect_logs-error callback e shared finished
                (E.poll 5 600 true (is_complete E key) s).1 (ground (arith, got, done)) no_error)
          | inr (inr (m, got)) ↦ ground (arith, got, done)
        ]

    -- The wait for a job returns nil, with or without a callback, only if on its way the job was
    -- read with a condition that says that it is complete.
    pub wait_for_job_completion-SeenComplete :
        (W : IsPolling E) (shared : Shared B) (finished : Finished B)
        (s : Sys E.State E.Unstructured)
        → (wait_for_job_completion E key shared s).0 ≡ ok finished
        → finished.error ≡ none
        → SeenComplete s (wait_for_job_completion E key shared s).1
    unfolding wait_for_job_completion
    wait_for_job_completion-SeenComplete W shared finished s done no_error =
        let (job, _, rest, ends) = bind-ok (first_looks E key 10 none) _ s finished done in
        let looked_at = ((first_looks-Stays E W key (start s) 10 none).at s (here, arrived)).1 in
        subst (SeenComplete s) ends (
          polled W (callback_of E key job shared.output_callbacks) shared finished s _ looked_at
            rest no_error)
