-- ===== src/Config/Writer.antt =====
-- config_writer.go: from the resource's spec to the file's structure. Two functions do the same
-- mapping, and a third writes a spec over a file's content. Fields that a literal leaves out are "".
use k4all_operator.Base.{String, Bool, if◌then◌else◌}
use k4all_operator.Base.Text.{format_bool}
use k4all_operator.Config.Types
use k4all_operator.Config.Types.{Config}
use k4all_operator.V1alpha1
use k4all_operator.V1alpha1.{ClusterConfigSpec}

unfoldable pub convert_to_config : ClusterConfigSpec → Config
unfolding format_bool
convert_to_config s = record {
  version = s.version;
  networking = record {
    cni = record { type = s.networking.cni.type };
    firewalld = record { enabled = s.networking.firewalld.enabled };
    interface = record {
      dev = s.networking.interface.dev;
      ip_config = s.networking.interface.ip_config;
      ip_addr = s.networking.interface.ip_addr;
      gateway = s.networking.interface.gateway;
      subnet_mask = s.networking.interface.subnet_mask;
      dns = s.networking.interface.dns;
      dns_search = s.networking.interface.dns_search;
    };
  };
  features = record {
    virt = record {
      enabled = format_bool s.features.virt.enabled;
      managed = format_bool s.features.virt.managed;
      version = "";
      emulation = s.features.virt.emulation;
    };
    argocd = record {
      enabled = format_bool s.features.argocd.enabled;
      managed = format_bool s.features.argocd.managed;
      version = "";
    };
  };
  cluster = record {
    api_end_point_use_host_name = s.cluster.api_end_point_use_host_name;
    custom_api_end_point = s.cluster.custom_api_end_point;
    ha = record {
      interface = s.cluster.ha.interface;
      type = s.cluster.ha.type;
      api_control_endpoint = s.cluster.ha.api_control_endpoint;
      api_control_endpoint_subnet_size = s.cluster.ha.api_control_endpoint_subnet_size;
    };
  };
}

-- x := "false"; if flag { x = "true" }
abbrev word : Bool → String
word flag = if flag then "true" else "false"

map_networking : V1alpha1.NetworkingConfig → Types.NetworkingConfig
map_networking n = record {
  cni = record { type = n.cni.type };
  firewalld = record { enabled = n.firewalld.enabled };
  interface = record {
    dev = n.interface.dev;
    ip_config = n.interface.ip_config;
    ip_addr = n.interface.ip_addr;
    gateway = n.interface.gateway;
    subnet_mask = n.interface.subnet_mask;
    dns = n.interface.dns;
    dns_search = n.interface.dns_search;
  };
}

map_cluster : V1alpha1.ControlPlaneConfig → Types.ControlPlaneConfig
map_cluster c = record {
  api_end_point_use_host_name = c.api_end_point_use_host_name;
  custom_api_end_point = c.custom_api_end_point;
  ha = record {
    interface = c.ha.interface;
    type = c.ha.type;
    api_control_endpoint = c.ha.api_control_endpoint;
    api_control_endpoint_subnet_size = c.ha.api_control_endpoint_subnet_size;
  };
}

unfoldable pub map_from_cluster_config : ClusterConfigSpec → Config
unfolding map_networking map_cluster
map_from_cluster_config s =
    let argocd_enabled = word s.features.argocd.enabled in
    let argocd_managed = word s.features.argocd.managed in
    let virt_enabled = word s.features.virt.enabled in
    let virt_managed = word s.features.virt.managed in
    record {
      version = s.version;
      networking = map_networking s.networking;
      features = record {
        virt = record {
          enabled = virt_enabled;
          managed = virt_managed;
          version = "";
          emulation = s.features.virt.emulation;
        };
        argocd = record { enabled = argocd_enabled; managed = argocd_managed; version = "" };
      };
      cluster = map_cluster s.cluster;
    }

-- The assignments to fields of the file's configuration: what none of them names is kept.
unfoldable pub merge_configs : Config → ClusterConfigSpec → Config
unfolding map_networking map_cluster format_bool
merge_configs file s = record {
  version = s.version;
  networking = map_networking s.networking;
  features = record {
    virt = record {
      enabled = format_bool s.features.virt.enabled;
      managed = format_bool s.features.virt.managed;
      version = file.features.virt.version;
      emulation = s.features.virt.emulation;
    };
    argocd = record {
      enabled = format_bool s.features.argocd.enabled;
      managed = format_bool s.features.argocd.managed;
      version = file.features.argocd.version;
    };
  };
  cluster = map_cluster s.cluster;
}
