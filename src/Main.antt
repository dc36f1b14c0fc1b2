-- ===== src/Main.antt =====
-- cmd/main.go: the flags, the parts of the operator and how they are set up.
pub mod Started
use k4all_operator.Argocd.Types.{ArgocdReconciler}
use k4all_operator.Base.{String, Bool, true, false, List, [], ◌∷◌, none, if◌then◌else◌}
use k4all_operator.Base.Effect.{Action, pure, handle}
use k4all_operator.Controller.ClusterConfigReconciler.{Reconciler, setup_with_manager}
use k4all_operator.Controller.ConfigSyncer.{Syncer}
use k4all_operator.Virt.Types.{VirtReconciler}

-- The flags; those of the logger are read by zap.
pub record Flags : Type 0 where
  pub metrics_bind_address : String
  pub health_probe_bind_address : String
  pub leader_elect : Bool
  pub metrics_secure : Bool
  pub enable_http2 : Bool
  pub config_file : String
  pub tools_image : String

abbrev pub default_flags : Flags
default_flags = record {
  metrics_bind_address = "0";
  health_probe_bind_address = ":8081";
  leader_elect = false;
  metrics_secure = true;
  enable_http2 = false;
  config_file = "/etc/k4all-config.json";
  tools_image = "ghcr.io/gpillon/k4all-tools:latest";
}

-- The part of tls.Config that the program writes.
pub record TlsConfig : Type 0 where
  pub next_protos : List String

unfoldable pub disable_http2 : TlsConfig → TlsConfig
disable_http2 c = record c { next_protos = "http/1.1" ∷ [] }

unfoldable pub tls_opts : Flags → List (TlsConfig → TlsConfig)
unfolding disable_http2
tls_opts flags = if flags.enable_http2 then [] else disable_http2 ∷ []

pub record MetricsOptions : Type 0 where
  pub bind_address : String
  pub secure_serving : Bool
  pub tls_opts : List (TlsConfig → TlsConfig)
  pub has_filter_provider : Bool

unfoldable pub metrics_server_options : Flags → MetricsOptions
unfolding tls_opts
metrics_server_options flags = record {
  bind_address = flags.metrics_bind_address;
  secure_serving = flags.metrics_secure;
  tls_opts = tls_opts flags;
  has_filter_provider = flags.metrics_secure;
}

pub record ManagerOptions : Type 0 where
  pub metrics : MetricsOptions
  pub webhook_tls_opts : List (TlsConfig → TlsConfig)
  pub health_probe_bind_address : String
  pub leader_election : Bool
  pub leader_election_id : String

unfoldable pub manager_options : Flags → ManagerOptions
unfolding metrics_server_options tls_opts
manager_options flags = record {
  metrics = metrics_server_options flags;
  webhook_tls_opts = tls_opts flags;
  health_probe_bind_address = flags.health_probe_bind_address;
  leader_election = flags.leader_elect;
  leader_election_id = "ebd8f187.magesgate.com";
}

abbrev pub config_map_name : String
config_map_name = "k4all-config"

abbrev pub config_map_ns : String
config_map_ns = "k4all-operator-system"

abbrev pub host_config_file_path : String
host_config_file_path = "/host/etc/k4all-config.json"

abbrev pub config_syncer : Syncer
config_syncer = record {
  config_path = host_config_file_path;
  config_map_name = config_map_name;
  config_map_ns = config_map_ns;
}

unfoldable pub cluster_config_reconciler : Flags → Reconciler
cluster_config_reconciler flags = record {
  config_file_path = host_config_file_path;
  tools_image = flags.tools_image;
  config_syncer = none;
}

unfoldable pub argocd_reconciler : Flags → ArgocdReconciler
argocd_reconciler flags = record {
  config_map_name = config_map_name;
  config_map_ns = config_map_ns;
  values_config_map = "argocd-values";
  helm_repo_url = "https://argoproj.github.io/argo-helm";
  helm_chart_name = "argo-cd";
  helm_release_name = "argocd";
  helm_release_ns = "argocd";
  tools_image = flags.tools_image;
}

unfoldable pub virt_reconciler : Flags → VirtReconciler
virt_reconciler flags = record {
  config_map_name = config_map_name;
  config_map_ns = config_map_ns;
  values_config_map = "virt-values";
  tools_image = flags.tools_image;
}

-- The calls of controller-runtime. A reconciler is registered with what its SetupWithManager fills in.
pub data ManagerCall : Type 0 where
  new_manager : ManagerOptions → ManagerCall
  register_cluster_config : Reconciler → ManagerCall
  register_argocd : ArgocdReconciler → ManagerCall
  register_virt : VirtReconciler → ManagerCall
  add_syncer : Syncer → ManagerCall
  add_healthz_check add_readyz_check : String → ManagerCall
  start_manager : ManagerCall

-- The end of the process: main returns, or os.Exit(1) after a message.
pub data Exit : Type 0 where
  returned : Exit
  exited : String → Exit

module _ {S : Type 0} (attempt : ManagerCall → Action S Unit) where
  unfoldable pub main : Flags → Action S Exit
  unfolding manager_options cluster_config_reconciler setup_with_manager argocd_reconciler
      virt_reconciler
  main flags =
      handle (attempt (new_manager (manager_options flags)))
        (λ e. pure (exited "unable to start manager"))
        λ _.
          handle
            (attempt
              (register_cluster_config (setup_with_manager (cluster_config_reconciler flags))))
            (λ e. pure (exited "unable to create controller"))
            λ _.
              handle (attempt (register_argocd (argocd_reconciler flags)))
                (λ e. pure (exited "unable to create controller"))
                λ _.
                  handle (attempt (register_virt (virt_reconciler flags)))
                    (λ e. pure (exited "unable to create controller"))
                    λ _.
                      handle (attempt (add_syncer config_syncer))
                        (λ e. pure (exited "unable to set up config syncer"))
                        λ _.
                          handle (attempt (add_healthz_check "healthz"))
                            (λ e. pure (exited "unable to set up health check"))
                            λ _.
                              handle (attempt (add_readyz_check "readyz"))
                                (λ e. pure (exited "unable to set up ready check"))
                                λ _.
                                  handle (attempt start_manager)
                                    (λ e. pure (exited "problem running manager"))
                                    (λ _. pure returned)
