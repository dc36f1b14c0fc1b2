-- ===== src/JobRunner/Build/Mounts.antt =====
-- Every mount of the container has its volume.
use k4all_operator.Base.{ℕ, suc, String, ◌≡◌, refl, ap, List, [], ◌∷◌, map, Bool-cases, inl, inr}
use k4all_operator.JobRunner.Build.{volume_mounts_from, volumes_from, mounts_or_default, build_job}
use k4all_operator.JobRunner.Types.{HostMount, JobConfig}
use k4all_operator.World.Objects.{VolumeMount, Volume, Job}

abbrev pub mount_names : Job → List String
mount_names job = map (λ m. m.name) job.template.container.volume_mounts

abbrev pub volume_names : Job → List String
volume_names job = map (λ v. v.name) job.template.volumes

names_from :
    (i : ℕ) (mounts : List HostMount)
    → map (λ (m : VolumeMount). m.name) (volume_mounts_from i mounts)
      ≡ map (λ (v : Volume). v.name) (volumes_from i mounts)
unfolding volume_mounts_from volumes_from
names_from i [] = refl
names_from i (mount ∷ mounts) = rw (names_from (suc i) mounts) refl

-- The mounts of the job's container and the volumes of its pod have the same names in the same
-- order, whatever is mounted.
pub build_job_mounts :
    {B : Type 0} (c : JobConfig B) (job_name : String) (command : List String)
    → mount_names (build_job c job_name command) ≡ volume_names (build_job c job_name command)
unfolding build_job
build_job_mounts c job_name command = elim (Bool-cases c.mount_host_root) [
  | inl root ↦ rw root (ap (◌∷◌ "host-root") (names_from 0 (mounts_or_default c.additional_mounts)))
  | inr none_ ↦ rw none_ (names_from 0 (mounts_or_default c.additional_mounts))
]
