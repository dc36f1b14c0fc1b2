-- ===== src/JobRunner/Types.antt =====
-- JobConfig, HostMount, and the callbacks for the output of jobs.
use k4all_operator.Base.{ℕ, String, Bool, Option, List}
use k4all_operator.Base.Dict.{Dict}
use k4all_operator.Base.Effect.{Error, Result}
use k4all_operator.World.Objects.{EnvVar}

pub record HostMount : Type 0 where
  pub host_path : String
  pub container_path : String
  pub type : String

-- A callback gets the pod, the container and the log; what it writes to is the value that it
-- changes. It may panic.
abbrev pub Callback : Type 0 → Type 0
Callback B = String → String → String → B → Result B

pub record JobConfig (B : Type 0) : Type 0 where
  pub name_prefix : String
  pub namespace_ : String
  pub image : String
  pub command : List String
  pub service_account : String
  pub labels : Dict String
  pub mount_host_root : Bool
  pub host_root_mount_path : String
  pub init_script : String
  pub env_vars : List EnvVar
  pub additional_mounts : List HostMount
  pub backoff_limit : ℕ
  pub output_callback : Option (Callback B)
  pub delete_after_completion : Bool

-- The global map of callbacks, and what they write to.
pub record Shared (B : Type 0) : Type 0 where
  pub output_callbacks : Dict (Callback B)
  pub output : B

-- What a run returns, beside the shared values that it leaves.
pub record Finished (B : Type 0) : Type 0 where
  pub error : Option Error
  pub shared : Shared B
