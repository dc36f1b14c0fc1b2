-- ===== src/JobRunner/Commands/Names.antt =====
-- How long the names of the jobs of commands are.
use k4all_operator.Base.{ℕ, ◌≤◌, ◌<◌, String, ◌<>◌, ◌≡◌, sym, subst, List, [], ◌∷◌, arith}
use k4all_operator.Base.Decimal.{format_int}
use k4all_operator.Base.Decimal.Length.{byte_length-append, ten_to, format_int-length}
use k4all_operator.Base.Dict.{Dict}
use k4all_operator.Base.Effect.{handle, ◌>>=◌}
use k4all_operator.Base.Int.{pos}
use k4all_operator.Base.Keeps.{Keeps, Keeps-pure, Keeps-bind}
use k4all_operator.Base.Text.{byte_length}
use k4all_operator.JobRunner.Commands.{
  Buffers, helm_config, host_config, run_helm_command, run_host_command,
}
use k4all_operator.JobRunner.Run.{run_job}
use k4all_operator.JobRunner.Run.OwnJob.{OwnJob, job_key, run_job-Since}
use k4all_operator.JobRunner.Types.{JobConfig, Callback, Shared}
use k4all_operator.World.{Env, unix_now}
use k4all_operator.World.Emits.{here, Since, Emits, Origin, from_trace, Since-restart, restart}
use k4all_operator.World.Objects.{NamespacedName, Kind}
use k4all_operator.World.Polling.{IsPolling}
use k4all_operator.World.Requests.{Request}

-- A clock whose times are not negative and have at most eleven digits, as until the year 5138.
pub record IsClock (E : Env) : Type 0 where
  pub seconds : E.State → ℕ
  pub clock-seconds : (st : E.State) → (E.clock st).0 ≡ pos (seconds st)
  pub seconds-lt : (st : E.State) → seconds st < ten_to 11

-- The name of a job that is created is short enough for the value of a label, which has at most 63
-- bytes.
abbrev pub ShortName : {U : Type 0} → Request U → Type 0
ShortName (Request.create_object Kind.job o) = byte_length o.name ≤ 63
ShortName _ = Unit

OwnJob-ShortName :
    {U : Type 0} (key : NamespacedName)
    → byte_length key.name ≤ 63
    → (q : Request U) → OwnJob key q
    → ShortName q
OwnJob-ShortName key short (Request.create_object Kind.job o) h =
    subst (λ n. byte_length n ≤ 63) (sym h.0) short
OwnJob-ShortName key short _ h = tt

module _ (E : Env) (C : IsClock E) where
  time_length : (st : E.State) → byte_length (format_int (E.clock st).0) ≤ 11
  time_length st =
      rw (C.clock-seconds st) (format_int-length 11 (C.seconds st) (omega arith) (C.seconds-lt st))

  -- a prefix that leaves room for the dash and the time
  named_after :
      (prefix : String) (st : E.State)
      → byte_length prefix ≤ 51
      → byte_length (prefix <> "-" <> format_int (E.clock st).0) ≤ 63
  unfolding byte_length
  named_after prefix st short = omega (
    arith,
    byte_length-append prefix ("-" <> format_int (E.clock st).0),
    byte_length-append "-" (format_int (E.clock st).0),
    time_length st,
  )

  numbered :
      (prefix : String) (st : E.State)
      → byte_length prefix ≤ 40
      → byte_length (prefix <> format_int (E.clock st).0) ≤ 51
  numbered prefix st short =
      omega (arith, byte_length-append prefix (format_int (E.clock st).0), time_length st)

  module _ (W : IsPolling E) where
    run_job-ShortName :
        {B : Type 0} (c : JobConfig B) (shared : Shared B) (old : Origin E ShortName)
        → byte_length c.name_prefix ≤ 51
        → Keeps (Since ShortName old) (run_job E c shared)
    run_job-ShortName c shared old short = record {
      at = λ s h.
          let fewer = OwnJob-ShortName (job_key E c s) (named_after c.name_prefix s.state short) in
          Since-restart E (OwnJob (job_key E c s)) ShortName fewer old s _ h (
            run_job-Since E W c shared s
              (restart E (OwnJob (job_key E c s)) ShortName fewer old s.trace) (here, h.1));
    }

    run_helm_command-ShortName :
        (namespace_ tools_image : String) (args : List String) (callbacks : Dict (Callback Buffers))
        → Emits E ShortName (run_helm_command E namespace_ tools_image args callbacks)
    unfolding run_helm_command helm_config unix_now ◌>>=◌ handle byte_length
    run_helm_command-ShortName namespace_ tools_image [] callbacks s = here
    run_helm_command-ShortName namespace_ tools_image (arg ∷ args) callbacks s =
        ((Keeps-bind _ _
            (run_job-ShortName _ _ (from_trace E ShortName s.trace)
              (numbered "helm-" s.state (omega arith)))
            (λ done. Keeps-pure _)).at
          (record s { state = (E.clock s.state).1 }) (here, tt)).0

    run_host_command-ShortName :
        (namespace_ tools_image : String) (args : List String) (callbacks : Dict (Callback Buffers))
        → Emits E ShortName (run_host_command E namespace_ tools_image args callbacks)
    unfolding run_host_command host_config unix_now ◌>>=◌ handle byte_length
    run_host_command-ShortName namespace_ tools_image [] callbacks s = here
    run_host_command-ShortName namespace_ tools_image (arg ∷ args) callbacks s =
        ((Keeps-bind _ _
            (run_job-ShortName _ _ (from_trace E ShortName s.trace)
              (numbered "host-cmd-" s.state (omega arith)))
            (λ done. Keeps-pure _)).at
          (record s { state = (E.clock s.state).1 }) (here, tt)).0

    -- While the clock's times have at most eleven digits, every job that a helm command or a host
    -- command creates has a name of at most 63 bytes, whatever its arguments are.
    pub commands-ShortName :
        (namespace_ tools_image : String) (args : List String) (callbacks : Dict (Callback Buffers))
        → Emits E ShortName (run_helm_command E namespace_ tools_image args callbacks)
          × Emits E ShortName (run_host_command E namespace_ tools_image args callbacks)
    commands-ShortName namespace_ tools_image args callbacks = (
      run_helm_command-ShortName namespace_ tools_image args callbacks,
      run_host_command-ShortName namespace_ tools_image args callbacks,
    )
