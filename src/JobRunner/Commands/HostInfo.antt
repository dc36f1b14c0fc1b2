-- ===== src/JobRunner/Commands/HostInfo.antt =====
-- GetHostInfo of argocd_controller.go and of virt_controller.go.
use k4all_operator.Base.{String, Option, none, some, [], ◌∷◌}
use k4all_operator.Base.Dict.{Dict}
use k4all_operator.Base.Effect.{Error, wrap, pure, ◌>>=◌}
use k4all_operator.Base.Text.{trim_space}
use k4all_operator.JobRunner.Commands.{Buffers, Ran, run_host_command}
use k4all_operator.JobRunner.Types.{Callback}
use k4all_operator.World.{Env, Program}

-- What it returns, and the global map of callbacks after it.
pub record HostInfo : Type 0 where
  pub ip : String
  pub fqdn : String
  pub error : Option Error
  pub output_callbacks : Dict (Callback Buffers)

abbrev no_info : Error → Dict (Callback Buffers) → HostInfo
no_info e callbacks = record { ip = ""; fqdn = ""; error = some e; output_callbacks = callbacks }

-- The end of ArgocdReconciler.GetHostInfo.
unfoldable pub argocd_info : Ran → HostInfo
unfolding trim_space
argocd_info ran = elim ran.error [
  | some e ↦ no_info (wrap "failed to get host IP" e) ran.output_callbacks
  | none ↦ record {
    ip = trim_space ran.output;
    fqdn = "example.com";
    error = none;
    output_callbacks = ran.output_callbacks;
  }
]

-- The end of VirtReconciler.GetHostInfo.
unfoldable pub virt_info : String → Ran → HostInfo
unfolding trim_space
virt_info ip ran = elim ran.error [
  | some e ↦ no_info (wrap "failed to get host FQDN" e) ran.output_callbacks
  | none ↦ record {
    ip = trim_space ip;
    fqdn = trim_space ran.output;
    error = none;
    output_callbacks = ran.output_callbacks;
  }
]

module _ (E : Env) (namespace_ tools_image : String) (callbacks : Dict (Callback Buffers)) where
  unfoldable pub argocd_host_info : Program E HostInfo
  unfolding argocd_info
  argocd_host_info = do
    ran ← run_host_command E namespace_ tools_image ("echo" ∷ "$(get_cluster_ip)" ∷ []) callbacks
    pure (argocd_info ran)

  unfoldable pub virt_host_info : Program E HostInfo
  unfolding virt_info
  virt_host_info = do
    ran ← run_host_command E namespace_ tools_image ("echo" ∷ "$(get_cluster_ip)" ∷ []) callbacks
    elim ran.error [
      | some e ↦ pure (no_info (wrap "failed to get host IP" e) ran.output_callbacks)
      | none ↦ do
        last ←
            run_host_command E namespace_ tools_image ("echo $(get_fqdn)" ∷ []) ran.output_callbacks
        pure (virt_info ran.output last)
    ]
