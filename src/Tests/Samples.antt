-- ===== src/Tests/Samples.antt =====
-- The inputs of the runs.
use k4all_operator.Tests.Memory.Encoding.{sample_text}
use k4all_operator.Base.{String, ◌==◌, none, some, true, false, [], ◌∷◌, if◌then◌else◌}
use k4all_operator.Base.Int.{pos}
use k4all_operator.Controller.ConfigSyncer.{Syncer}
use k4all_operator.Downloader.Ready.{kubevirt_gvk}
use k4all_operator.Tests.Memory.{Memory, Doc, Page}
use k4all_operator.V1alpha1.{ClusterConfig, ClusterConfigSpec}
use k4all_operator.Virt.Types.{VirtReconciler, deployment_gvk}
use k4all_operator.World.{document, Values, Json}
use k4all_operator.World.Objects.{NamespacedName, ConfigMap, Node}
use k4all_operator.World.Requests.{Sys}

abbrev pub config_path : String
config_path = "/host/etc/k4all-config.json"

abbrev pub page_url : String
page_url = "https://example.org/manifest.yaml"

-- The spec of the sample configuration.
abbrev pub spec : ClusterConfigSpec
spec = record {
  version = "1.0";
  networking = record {
    cni = record { type = "calico" };
    firewalld = record { enabled = "true" };
    interface = record {
      dev = "eth0";
      ip_config = "dhcp";
      ip_addr = "";
      gateway = "";
      subnet_mask = "";
      dns = "";
      dns_search = "";
    };
  };
  features = record {
    virt = record { enabled = true; managed = false; emulation = "auto" };
    argocd = record { enabled = false; managed = true };
  };
  cluster = record {
    api_end_point_use_host_name = "true";
    custom_api_end_point = "";
    ha = record {
      interface = "eth0";
      type = "none";
      api_control_endpoint = "";
      api_control_endpoint_subnet_size = "";
    };
  };
}

abbrev pub resource : ClusterConfig
resource = record {
  name = "k4all-cluster-config";
  namespace_ = "k4all-operator-system";
  annotations = some (("k4all.magesgate.com/last-update", "9") ∷ []);
  spec = spec;
}

abbrev pub kubevirt : Doc
kubevirt = record {
  gvk = kubevirt_gvk;
  name = "kubevirt";
  namespace_ = "kubevirt";
  version = "1";
  phase = some "Deployed";
  replicas = none;
  emulation = none;
  content = true;
}

abbrev pub cdi : Doc
cdi = record kubevirt { name = "cdi"; namespace_ = "" }

abbrev pub manager : Doc
manager = record {
  gvk = deployment_gvk;
  name = "kubevirt-manager";
  namespace_ = "kubevirt-manager";
  version = "1";
  phase = none;
  replicas = some (pos 1);
  emulation = none;
  content = true;
}

-- KubeVirt's, CDI's and the manager's objects.
abbrev custom_of : String → NamespacedName → Doc
custom_of kind n = if kind == "KubeVirt" then kubevirt else if kind == "CDI" then cdi else manager

abbrev pub page : Page
page = record { text = "v1.0"; docs = document kubevirt ∷ document manager ∷ [] }

abbrev pub node : Node
node = record { name = "n1"; labels = some (("feature.node.kubernetes.io/kvm", "true") ∷ []) }

abbrev pub config_map : ConfigMap
config_map = record {
  name = "k4all-config";
  namespace_ = "k4all-operator-system";
  entries = some (("config.json", sample_text) ∷ []);
}

abbrev pub start : Sys Memory Doc
start = record {
  state = record {
    files = λ p. if p == config_path then some sample_text else none;
    config_maps = λ n. if n.name == "k4all-config" then some config_map else none;
    cluster_config = some resource;
    namespaces = λ n. true;
    daemon_set = none;
    job = none;
    customs = λ kind n. some (custom_of kind n);
    nodes = node ∷ [];
    pages = λ url. some page;
    time = 100;
  };
  trace = [];
}

-- Without files and objects.
abbrev pub bare : Sys Memory Doc
bare = record {
  state = record start.state {
    files = λ p. none;
    config_maps = λ n. none;
    cluster_config = none;
    customs = λ kind n. none;
  };
  trace = [];
}

abbrev pub syncer : Syncer
syncer = record {
  config_path = config_path;
  config_map_name = "k4all-config";
  config_map_ns = "k4all-operator-system";
}

abbrev pub virt : VirtReconciler
virt = record {
  config_map_name = "k4all-config";
  config_map_ns = "k4all-operator-system";
  tools_image = "tools";
  values_config_map = "virt-values";
}

abbrev pub some_values : Values
some_values = some (("version", Json.text "1") ∷ ("managed", Json.bool true) ∷ [])

-- the same map, as it is decoded
abbrev pub sorted_values : Values
sorted_values = some (("managed", Json.bool true) ∷ ("version", Json.text "1") ∷ [])
