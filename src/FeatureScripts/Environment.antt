-- ===== src/FeatureScripts/Environment.antt =====
-- What the container of a feature script sees of the caller's map of variables.
use k4all_operator.Base.{
  String, ◌==◌, ◌≡◌, refl, Option, none, some, List, [], ◌∷◌, arith, eq_iff, if◌then◌else◌,
}
use k4all_operator.Base.Dict.{Dict, lookup}
use k4all_operator.FeatureScripts.Runner.{FeatureScriptConfig, env_vars, script_job}
use k4all_operator.JobRunner.Build.{build_job}
use k4all_operator.JobRunner.Run.{with_defaults}
use k4all_operator.JobRunner.Types.{JobConfig}
use k4all_operator.World.Objects.{EnvVar}

-- The value that a container sees: the last entry of the name.
unfoldable pub value_of : String → List EnvVar → Option String
value_of name [] = none
value_of name (v ∷ vs) = elim (value_of name vs) [
  | some value ↦ some value
  | none ↦ if v.name == name then some v.value else none
]

-- The entries of a map: no key occurs twice.
abbrev pub HasDistinctKeys : Dict String → Type 0
HasDistinctKeys [] = Unit
HasDistinctKeys ((key, value) ∷ entries) = (lookup key entries ≡ none) × HasDistinctKeys entries

value_of-env_vars :
    (entries : Dict String) (name : String)
    → HasDistinctKeys entries
    → value_of name (env_vars entries)
      ≡ (if "K4ALL_DEBUG" == name then some "true" else lookup name entries)
unfolding value_of env_vars lookup
value_of-env_vars [] name distinct = refl
value_of-env_vars ((key, value) ∷ entries) name (absent, distinct) =
    ground (arith, absent, eq_iff key name, value_of-env_vars entries name distinct)

-- The variables that the container of a job gets.
abbrev pub container_env : {B : Type 0} → JobConfig B → String → List String → List EnvVar
container_env c name command = (build_job c name command).template.container.env

-- In whatever order the loop meets the entries of the caller's map, the container of the script's
-- job sees for each name the map's value, and none where the map has none, but "true" for
-- K4ALL_DEBUG, also where the map has an entry of that name.
pub script_job-value_of :
    (B : Type 0) (c : FeatureScriptConfig) (tools_image job_name name : String)
    (command : List String)
    → HasDistinctKeys c.env
    → value_of name
        (container_env (with_defaults (script_job {B = B} c tools_image)) job_name command)
      ≡ (if "K4ALL_DEBUG" == name then some "true" else lookup name c.env)
unfolding script_job build_job with_defaults
script_job-value_of B c tools_image job_name name command distinct =
    value_of-env_vars c.env name distinct
