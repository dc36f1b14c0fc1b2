-- ===== src/Config/Types.antt =====
-- config_parser.go: the structure of the configuration file.
use k4all_operator.Base.{String}

pub record CniConfig : Type 0 where
  pub type : String

pub record FirewalldConfig : Type 0 where
  pub enabled : String

pub record InterfaceConfig : Type 0 where
  pub dev : String
  pub ip_config : String
  pub ip_addr : String
  pub gateway : String
  pub subnet_mask : String
  pub dns : String
  pub dns_search : String

pub record NetworkingConfig : Type 0 where
  pub cni : CniConfig
  pub firewalld : FirewalldConfig
  pub interface : InterfaceConfig

pub record VirtConfig : Type 0 where
  pub enabled : String
  pub managed : String
  pub version : String
  pub emulation : String

pub record ArgocdConfig : Type 0 where
  pub enabled : String
  pub managed : String
  pub version : String

pub record FeaturesConfig : Type 0 where
  pub virt : VirtConfig
  pub argocd : ArgocdConfig

pub record HaConfig : Type 0 where
  pub interface : String
  pub type : String
  pub api_control_endpoint : String
  pub api_control_endpoint_subnet_size : String

pub record ControlPlaneConfig : Type 0 where
  pub api_end_point_use_host_name : String
  pub custom_api_end_point : String
  pub ha : HaConfig

pub record Config : Type 0 where
  pub version : String
  pub networking : NetworkingConfig
  pub features : FeaturesConfig
  pub cluster : ControlPlaneConfig
