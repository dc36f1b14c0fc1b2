-- ===== src/Config/Convert.antt =====
-- convert.go: the conversion that `SyncClusterConfig` uses. Its two helpers return zero values.
use k4all_operator.Base.{Option, none, some, false}
use k4all_operator.Config.Types
use k4all_operator.Config.Types.{Config}
use k4all_operator.V1alpha1

unfoldable pub convert_to_v1alpha1_features_config : Types.FeaturesConfig → V1alpha1.FeaturesConfig
convert_to_v1alpha1_features_config features = record {
  virt = record { enabled = false; managed = false; emulation = "" };
  argocd = record { enabled = false; managed = false };
}

unfoldable pub convert_to_v1alpha1_networking_config :
    Types.NetworkingConfig → V1alpha1.NetworkingConfig
convert_to_v1alpha1_networking_config networking = record {
  cni = record { type = "" };
  firewalld = record { enabled = "" };
  interface = record {
    dev = "";
    ip_config = "";
    ip_addr = "";
    gateway = "";
    subnet_mask = "";
    dns = "";
    dns_search = "";
  };
}

-- The literal gives no `Cluster`, which is then the zero value.
zero_cluster : V1alpha1.ControlPlaneConfig
zero_cluster = record {
  api_end_point_use_host_name = "";
  custom_api_end_point = "";
  ha = record {
    interface = "";
    type = "";
    api_control_endpoint = "";
    api_control_endpoint_subnet_size = "";
  };
}

unfoldable pub convert_to_cluster_config_spec : Option Config → Option V1alpha1.ClusterConfigSpec
unfolding convert_to_v1alpha1_features_config convert_to_v1alpha1_networking_config zero_cluster
convert_to_cluster_config_spec none = none
convert_to_cluster_config_spec (some cfg) = some (record {
  version = cfg.version;
  networking = convert_to_v1alpha1_networking_config cfg.networking;
  features = convert_to_v1alpha1_features_config cfg.features;
  cluster = zero_cluster;
})
