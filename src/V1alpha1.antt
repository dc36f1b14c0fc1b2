-- ===== src/V1alpha1.antt =====
-- api/v1alpha1/clusterconfig_types.go: the `ClusterConfig` resource. Its status has no fields.
use k4all_operator.Base.{String, Bool, Option}
use k4all_operator.Base.Dict.{Dict}

pub record CniConfig : Type 0 where
  pub type : String

pub record FirewalldConfig : Type 0 where
  pub enabled : String

pub record InterfaceConfig : Type 0 where
  pub dev : String
  pub ip_config : String
  pub ip_addr : String
  pub gateway : String
  pub subnet_mask : String
  pub dns : String
  pub dns_search : String

pub record NetworkingConfig : Type 0 where
  pub cni : CniConfig
  pub firewalld : FirewalldConfig
  pub interface : InterfaceConfig

pub record VirtConfig : Type 0 where
  pub enabled : Bool
  pub managed : Bool
  pub emulation : String

pub record ArgocdConfig : Type 0 where
  pub enabled : Bool
  pub managed : Bool

pub record FeaturesConfig : Type 0 where
  pub virt : VirtConfig
  pub argocd : ArgocdConfig

pub record HaConfig : Type 0 where
  pub interface : String
  pub type : String
  pub api_control_endpoint : String
  pub api_control_endpoint_subnet_size : String

pub record ControlPlaneConfig : Type 0 where
  pub api_end_point_use_host_name : String
  pub custom_api_end_point : String
  pub ha : HaConfig

pub record ClusterConfigSpec : Type 0 where
  pub version : String
  pub networking : NetworkingConfig
  pub features : FeaturesConfig
  pub cluster : ControlPlaneConfig

-- Of the metadata the program reads the name, the namespace and the annotations, a map that may
-- be nil.
pub record ClusterConfig : Type 0 where
  pub name : String
  pub namespace_ : String
  pub annotations : Option (Dict String)
  pub spec : ClusterConfigSpec
