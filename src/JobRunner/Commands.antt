-- ===== src/JobRunner/Commands.antt =====
-- RunHelmCommand and RunHostCommand: a job that runs a command, and the command's output, which is
-- cut from the job's logs between markers.
pub mod Ended
pub mod HostInfo
pub mod Names
pub mod Positions
pub mod Sections
use Prim.Native.String
use k4all_operator.Base.{
  ℕ, zero, suc, ◌+◌, ltb, String, ◌<>◌, ◌==◌, ◌&&◌, Option, none, some, true, List, [], ◌∷◌,
  if◌then◌else◌,
}
use k4all_operator.Base.Decimal.{format_int}
use k4all_operator.Base.Dict.{Dict}
use k4all_operator.Base.Effect.{Error, other, wrap, Result, ok, err, panic, pure, ◌>>=◌}
use k4all_operator.Base.Int.{ℤ}
use k4all_operator.Base.Text.{trim_space}
use k4all_operator.JobRunner.Build.{join, has_prefix}
use k4all_operator.JobRunner.CommandScripts.{helm_script, host_script}
use k4all_operator.JobRunner.Run.{run_job}
use k4all_operator.JobRunner.Types.{JobConfig, Callback, Shared, Finished}
use k4all_operator.World.{Env, Program, unix_now}

-- strings.Index, counting characters and not bytes; none stands for -1.
unfoldable pub index_from : ℕ → String → String → Option ℕ
unfolding has_prefix
index_from n String.[] marker = if has_prefix "" marker then some n else none
index_from n (String.◌∷◌ c s) marker =
    let rest = index_from (suc n) s marker in
    if has_prefix (String.◌∷◌ c s) marker then some n else rest

unfoldable pub size : String → ℕ
size String.[] = 0
size (String.◌∷◌ c s) = suc (size s)

unfoldable pub take_chars : ℕ → String → String
take_chars zero s = ""
take_chars (suc n) String.[] = ""
take_chars (suc n) (String.◌∷◌ c s) = String.◌∷◌ c (take_chars n s)

unfoldable pub drop_chars : ℕ → String → String
drop_chars zero s = s
drop_chars (suc n) String.[] = ""
drop_chars (suc n) (String.◌∷◌ c s) = drop_chars n s

-- s[low:high] for a `high` within the text
unfoldable pub slice : ℕ → ℕ → String → Result String
unfolding take_chars drop_chars
slice low high s =
    if ltb high low
    then panic "slice bounds out of range"
    else ok (drop_chars low (take_chars high s))

-- outputBuffer and errorBuffer
pub record Buffers : Type 0 where
  pub output : String
  pub error_output : String

abbrev pub empty_buffers : Buffers
empty_buffers = record { output = ""; error_output = "" }

pub record Markers : Type 0 where
  pub output_marker : String
  pub error_marker : String
  pub end_marker : String

abbrev pub helm_markers : Markers
helm_markers = record {
  output_marker = "=== Helm Command Output ===";
  error_marker = "=== Helm Command Error Output ===";
  end_marker = "=== End of Helm Command Output ===";
}

abbrev pub host_markers : Markers
host_markers = record {
  output_marker = "=== Command Output ===";
  error_marker = "=== Command Error Output ===";
  end_marker = "=== End of Command Output ===";
}

-- Both sections are appended; a panic leaves the program, and the buffers are lost with it.
unfoldable pub append_sections : Result String → Result String → Buffers → Result Buffers
unfolding trim_space
append_sections (ok output) (ok error_output) b = ok (record {
  output = b.output <> trim_space output;
  error_output = b.error_output <> trim_space error_output;
})
append_sections (panic m) _ b = panic m
append_sections (err e) _ b = err e
append_sections (ok output) (panic m) b = panic m
append_sections (ok output) (err e) b = err e

-- The sections between the positions of the markers, where all three are there in this order. The
-- character after a marker is skipped.
unfoldable pub cut : Markers → String → Option ℕ → Option ℕ → Option ℕ → Buffers → Result Buffers
unfolding slice size append_sections
cut m log (some output_start) (some error_start) (some end_at) b =
    if ltb output_start error_start && ltb error_start end_at
    then append_sections (slice (output_start + size m.output_marker + 1) error_start log)
        (slice (error_start + size m.error_marker + 1) end_at log) b
    else ok b
cut m log _ _ _ b = ok b

-- The callback.
unfoldable pub collect_output : Markers → Callback Buffers
unfolding index_from cut
collect_output m pod container log b =
    cut m log (index_from 0 log m.output_marker) (index_from 0 log m.error_marker)
      (index_from 0 log m.end_marker) b

unfoldable pub helm_config : List String → String → String → ℤ → JobConfig Buffers
unfolding join collect_output
helm_config args namespace_ tools_image time = record {
  name_prefix = "helm-" <> format_int time;
  namespace_ = namespace_;
  image = tools_image;
  command = "/bin/bash" ∷ "-c" ∷ "echo 'Job completed'" ∷ [];
  service_account = "k4all-operator-controller-manager";
  labels =
      ("app.kubernetes.io/name", "k4all-operator")
      ∷ ("app.kubernetes.io/component", "helm-runner")
      ∷ ("app.kubernetes.io/part-of", "k4all-operator")
      ∷ [];
  mount_host_root = true;
  host_root_mount_path = "/host";
  init_script = helm_script (join args);
  env_vars = [];
  additional_mounts = [];
  backoff_limit = 2;
  output_callback = some (collect_output helm_markers);
  delete_after_completion = true;
}

unfoldable pub host_config : List String → String → String → ℤ → JobConfig Buffers
unfolding join collect_output
host_config args namespace_ tools_image time = record {
  name_prefix = "host-cmd-" <> format_int time;
  namespace_ = namespace_;
  image = tools_image;
  command = "echo" ∷ "Done" ∷ [];
  service_account = "k4all-operator-controller-manager";
  labels =
      ("app.kubernetes.io/name", "k4all-operator")
      ∷ ("app.kubernetes.io/component", "host-command-runner")
      ∷ ("app.kubernetes.io/part-of", "k4all-operator")
      ∷ [];
  mount_host_root = true;
  host_root_mount_path = "/host";
  init_script = host_script (join args);
  env_vars = [];
  additional_mounts = [];
  backoff_limit = 2;
  output_callback = some (collect_output host_markers);
  delete_after_completion = true;
}

-- What a command returns: its output and its error; and the global map of callbacks after it.
pub record Ran : Type 0 where
  pub output : String
  pub error : Option Error
  pub output_callbacks : Dict (Callback Buffers)

-- fmt.Errorf("text: %w\nError output: %s", …), or without the second line
unfoldable pub job_error : String → Error → Buffers → Error
job_error text e b =
    if b.error_output == ""
    then wrap text e
    else wrap (text <> "\nError output: " <> b.error_output) e

unfoldable pub helm_result : Option Error → Buffers → Dict (Callback Buffers) → Ran
unfolding job_error
helm_result (some e) b callbacks = record {
  output = b.output;
  error = some (job_error "helm command failed" e b);
  output_callbacks = callbacks;
}
helm_result none b callbacks = record {
  output = b.output;
  error =
      if b.error_output == ""
      then none
      else some (other ("helm command error: " <> b.error_output));
  output_callbacks = callbacks;
}

-- The output on stderr of a command whose job did not fail is dropped.
unfoldable pub host_result : Option Error → Buffers → Dict (Callback Buffers) → Ran
unfolding job_error trim_space
host_result (some e) b callbacks = record {
  output = b.output;
  error = some (job_error "command failed" e b);
  output_callbacks = callbacks;
}
host_result none b callbacks = record {
  output = trim_space b.output;
  error = none;
  output_callbacks = callbacks;
}

abbrev refused_with : String → Dict (Callback Buffers) → Ran
refused_with text callbacks = record {
  output = "";
  error = some (other text);
  output_callbacks = callbacks;
}

module _ (E : Env) (namespace_ tools_image : String) where
  unfoldable pub run_helm_command : List String → Dict (Callback Buffers) → Program E Ran
  unfolding helm_config helm_result
  run_helm_command [] callbacks =
      pure (refused_with "helm command arguments cannot be empty" callbacks)
  run_helm_command (arg ∷ args) callbacks = do
    time ← unix_now E
    finished ←
        run_job E (helm_config (arg ∷ args) namespace_ tools_image time)
          (record { output_callbacks = callbacks; output = empty_buffers })
    pure (helm_result finished.error finished.shared.output finished.shared.output_callbacks)

  unfoldable pub run_host_command : List String → Dict (Callback Buffers) → Program E Ran
  unfolding host_config host_result
  run_host_command [] callbacks = pure (refused_with "command arguments cannot be empty" callbacks)
  run_host_command (arg ∷ args) callbacks = do
    time ← unix_now E
    finished ←
        run_job E (host_config (arg ∷ args) namespace_ tools_image time)
          (record { output_callbacks = callbacks; output = empty_buffers })
    pure (host_result finished.error finished.shared.output finished.shared.output_callbacks)
