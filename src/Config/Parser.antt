-- ===== src/Config/Parser.antt =====
-- config_parser.go: from the file's structure to the resource's spec.
use k4all_operator.Base.{Option, none, some, true, false, if◌then◌else◌}
use k4all_operator.Base.Effect.{Result, ok, err, Error}
use k4all_operator.Base.Text.{is_true}
use k4all_operator.Config.Types
use k4all_operator.Config.Types.{Config}
use k4all_operator.V1alpha1

map_interface : Types.InterfaceConfig → V1alpha1.InterfaceConfig
map_interface i = record {
  dev = i.dev;
  ip_config = i.ip_config;
  ip_addr = i.ip_addr;
  gateway = i.gateway;
  subnet_mask = i.subnet_mask;
  dns = i.dns;
  dns_search = i.dns_search;
}

map_networking : Types.NetworkingConfig → V1alpha1.NetworkingConfig
unfolding map_interface
map_networking n = record {
  cni = record { type = n.cni.type };
  firewalld = record { enabled = n.firewalld.enabled };
  interface = map_interface n.interface;
}

-- The managed flags, which the source sets after the literal, are written in place.
map_features : Types.FeaturesConfig → V1alpha1.FeaturesConfig
map_features f = record {
  virt = record {
    enabled = is_true f.virt.enabled;
    managed = is_true f.virt.managed;
    emulation = f.virt.emulation;
  };
  argocd = record {
    enabled = if is_true f.argocd.enabled then true else false;
    managed = is_true f.argocd.managed;
  };
}

map_cluster : Types.ControlPlaneConfig → V1alpha1.ControlPlaneConfig
map_cluster c = record {
  api_end_point_use_host_name = c.api_end_point_use_host_name;
  custom_api_end_point = c.custom_api_end_point;
  ha = record {
    interface = c.ha.interface;
    type = c.ha.type;
    api_control_endpoint = c.ha.api_control_endpoint;
    api_control_endpoint_subnet_size = c.ha.api_control_endpoint_subnet_size;
  };
}

unfoldable pub map_spec : Config → V1alpha1.ClusterConfigSpec
unfolding map_networking map_features map_cluster
map_spec c = record {
  version = c.version;
  networking = map_networking c.networking;
  features = map_features c.features;
  cluster = map_cluster c.cluster;
}

-- `none` is a nil pointer.
unfoldable pub map_to_cluster_config : Option Config → Result V1alpha1.ClusterConfigSpec
unfolding map_spec
map_to_cluster_config none = err (Error.other "config is nil")
map_to_cluster_config (some c) = ok (map_spec c)
