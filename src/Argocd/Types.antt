-- ===== src/Argocd/Types.antt =====
-- The fields of `ArgocdReconciler`, what a reconciliation returns, and the arguments of its helm
-- commands.
use k4all_operator.Base.{String, ◌<>◌, List, [], ◌∷◌}
use k4all_operator.Base.Dict.{Dict}
use k4all_operator.Controller.Annotations.{Outcome}
use k4all_operator.JobRunner.Commands.{Buffers}
use k4all_operator.JobRunner.Types.{Callback}

pub record ArgocdReconciler : Type 0 where
  pub config_map_name : String
  pub config_map_ns : String
  pub values_config_map : String
  pub helm_repo_url : String
  pub helm_chart_name : String
  pub helm_release_name : String
  pub helm_release_ns : String
  pub tools_image : String

-- The global map of the job runner.
abbrev pub Callbacks : Type 0
Callbacks = Dict (Callback Buffers)

pub record Reconciled : Type 0 where
  pub outcome : Outcome
  pub output_callbacks : Callbacks

module _ (r : ArgocdReconciler) where
  unfoldable pub status_args : List String
  status_args = "status" ∷ r.helm_release_name ∷ "-n" ∷ r.helm_release_ns ∷ []

  unfoldable pub install_args : String → String → String → List String
  install_args version ip fqdn =
      "upgrade"
      ∷ "--install"
      ∷ r.helm_release_name
      ∷ r.helm_chart_name
      ∷ "--repo"
      ∷ r.helm_repo_url
      ∷ "--version"
      ∷ version
      ∷ "--namespace"
      ∷ r.helm_release_ns
      ∷ "--create-namespace"
      ∷ "-f"
      ∷ "/host/usr/local/share/argocd-values.yaml"
      ∷ "--set"
      ∷ ("global.domain=argo." <> ip <> ".nip.io")
      ∷ "--set"
      ∷ ("server.ingress.extraHosts[0].name=argo." <> fqdn)
      ∷ "--set"
      ∷ "server.ingress.extraHosts[0].path=/"
      ∷ "--wait"
      ∷ []

  unfoldable pub uninstall_args : List String
  uninstall_args = "uninstall" ∷ r.helm_release_name ∷ "--namespace" ∷ r.helm_release_ns ∷ []
