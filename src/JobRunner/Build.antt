-- ===== src/JobRunner/Build.antt =====
-- The job that RunJob creates.
pub mod Mounts
use k4all_operator.Base.{
  ℕ, suc, String, ◌<>◌, ◌==◌, ◌&&◌, Option, none, some, Bool, true, false, List, [], ◌∷◌, ◌++◌,
  if◌then◌else◌,
}
use k4all_operator.Base.Decimal.{format_int}
use k4all_operator.Base.Dict.{Dict}
use k4all_operator.Base.Effect.{Result, ok, panic}
use k4all_operator.Base.Int.{pos}
use k4all_operator.JobRunner.HostScript.{host_script_wrapper}
use k4all_operator.JobRunner.Scripts.{init_wrapper, direct_wrapper}
use k4all_operator.JobRunner.Types.{HostMount, JobConfig}
use k4all_operator.World.Objects.{VolumeMount, Volume, Toleration, Job}

-- strings.Join(list, " ")
unfoldable pub join : List String → String
join [] = ""
join (s ∷ []) = s
join (s ∷ (t ∷ ts)) = s <> " " <> join (t ∷ ts)

-- strings.HasPrefix
unfoldable pub has_prefix : String → String → Bool
has_prefix s String.[] = true
has_prefix String.[] (String.◌∷◌ c p) = false
has_prefix (String.◌∷◌ d s) (String.◌∷◌ c p) = String.◌∷◌ d "" == String.◌∷◌ c "" && has_prefix s p

abbrev bash : String → List String
bash script = "/bin/bash" ∷ "-c" ∷ script ∷ []

-- Without an init script. The second element is looked at only after "/bin/bash".
unfoldable pub wrap_command : List String → Result (List String)
unfolding has_prefix join
wrap_command [] = panic "index out of range [0] with length 0"
wrap_command (first ∷ []) =
    if first == "/bin/bash"
    then panic "index out of range [1] with length 1"
    else ok (bash (direct_wrapper first))
wrap_command (first ∷ (second ∷ more)) =
    if first == "/bin/bash" && has_prefix second "/host/"
    then ok (bash (host_script_wrapper first second))
    else ok (bash (direct_wrapper (join (first ∷ (second ∷ more)))))

abbrev no_schedule : String → Toleration
no_schedule key = record { key = key; operator = "Exists"; effect = "NoSchedule" }

abbrev tolerations : List Toleration
tolerations =
    no_schedule "node.kubernetes.io/disk-pressure"
    ∷ no_schedule "node.kubernetes.io/memory-pressure"
    ∷ no_schedule "node.kubernetes.io/network-unavailable"
    ∷ no_schedule "node.kubernetes.io/not-ready"
    ∷ no_schedule "node.kubernetes.io/pid-pressure"
    ∷ no_schedule "node.kubernetes.io/unreachable"
    ∷ []

abbrev default_mounts : List HostMount
default_mounts =
    record {
      host_path = "/etc/k4all-config.json";
      container_path = "/etc/k4all-config.json";
      type = "File";
    }
    ∷ record { host_path = "/opt/k4all"; container_path = "/opt/k4all"; type = "DirectoryOrCreate" }
    ∷ record {
      host_path = "/usr/local/share";
      container_path = "/usr/local/share";
      type = "DirectoryOrCreate";
    }
    ∷ record {
      host_path = "/usr/local/bin";
      container_path = "/usr/local/bin";
      type = "DirectoryOrCreate";
    }
    ∷ record { host_path = "/dev"; container_path = "/dev"; type = "Directory" }
    ∷ []

unfoldable pub mounts_or_default : List HostMount → List HostMount
mounts_or_default [] = default_mounts
mounts_or_default (mount ∷ mounts) = mount ∷ mounts

abbrev volume_name : ℕ → String
volume_name i = "host-volume-" <> format_int (pos i)

-- The two sides of the i-th and the later additional mounts.
unfoldable pub volume_mounts_from : ℕ → List HostMount → List VolumeMount
volume_mounts_from i [] = []
volume_mounts_from i (mount ∷ mounts) =
    record { name = volume_name i; mount_path = mount.container_path }
    ∷ volume_mounts_from (suc i) mounts

unfoldable pub volumes_from : ℕ → List HostMount → List Volume
volumes_from i [] = []
volumes_from i (mount ∷ mounts) =
    record { name = volume_name i; host_path = mount.host_path; host_path_type = some mount.type }
    ∷ volumes_from (suc i) mounts

module _ {B : Type 0} where
  abbrev root_mount : JobConfig B → List VolumeMount
  root_mount c =
      if c.mount_host_root
      then (record { name = "host-root"; mount_path = c.host_root_mount_path }) ∷ []
      else []

  abbrev root_volume : JobConfig B → List Volume
  root_volume c =
      if c.mount_host_root
      then (record { name = "host-root"; host_path = "/"; host_path_type = some "Directory" }) ∷ []
      else []

  abbrev callback_annotation : JobConfig B → Option (Dict String)
  callback_annotation c = elim c.output_callback [
    | none ↦ none
    | some callback ↦ some (("jobrunner.k4all.io/has-output-callback", "true") ∷ [])
  ]

  -- The job of a configuration with its defaults filled in.
  unfoldable pub build_job : JobConfig B → String → List String → Job
  unfolding mounts_or_default volume_mounts_from volumes_from
  build_job c job_name command = record {
    name = job_name;
    namespace_ = c.namespace_;
    labels = c.labels;
    template = record {
      labels = c.labels;
      annotations = callback_annotation c;
      service_account_name = c.service_account;
      host_network = true;
      host_ipc = true;
      host_pid = true;
      hostname = "node-hostname";
      container = record {
        name = "script-runner";
        image = c.image;
        command = command;
        env = c.env_vars;
        volume_mounts =
            root_mount c ++ volume_mounts_from 0 (mounts_or_default c.additional_mounts);
        privileged = if c.mount_host_root then some true else none;
      };
      volumes = root_volume c ++ volumes_from 0 (mounts_or_default c.additional_mounts);
      tolerations = tolerations;
      restart_policy = "Never";
    };
    backoff_limit = c.backoff_limit;
    active = 0;
    conditions = [];
  }
