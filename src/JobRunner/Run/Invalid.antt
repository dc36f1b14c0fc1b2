-- ===== src/JobRunner/Run/Invalid.antt =====
-- What RunJob makes of a configuration.
use k4all_operator.Base.{◌≡◌, ◌==◌, ◌⊎◌, inl, inr, some, [], Bool-cases, arith, eq_iff}
use k4all_operator.Base.Effect.{Error, other, ok}
use k4all_operator.JobRunner.Run.{invalid, run_job}
use k4all_operator.JobRunner.Types.{JobConfig, Shared}
use k4all_operator.World.{Env}
use k4all_operator.World.Requests.{Sys}

refused :
    {B : Type 0} (c : JobConfig B)
    → (c.image ≡ "") ⊎ (c.command ≡ [])
    → (e : Error) × (invalid c ≡ some e)
unfolding invalid
refused c (inl no_image) =
    (other "job image cannot be empty", ground (arith, no_image, eq_iff c.image ""))
refused c (inr no_command) = elim (Bool-cases (c.image == "")) [
  | inl blank ↦ (other "job image cannot be empty", ground (arith, blank))
  | inr named ↦ (other "job command cannot be empty", ground (arith, named, no_command))
]

-- A configuration without an image, or without a command, is refused with an error before any call,
-- and the shared values stay as they are.
pub run_job_invalid :
    {B : Type 0} (E : Env) (c : JobConfig B) (shared : Shared B) (s : Sys E.State E.Unstructured)
    → (c.image ≡ "") ⊎ (c.command ≡ [])
    → (e : Error) × (run_job E c shared s ≡ (ok (record { error = some e; shared = shared }), s))
unfolding run_job
run_job_invalid E c shared s lacking =
    let (e, found) = refused c lacking in (e, ground (arith, found))
