-- ===== src/Config/RoundTrip.antt =====
-- The mappings between the file's structure and the resource's spec, composed.
use k4all_operator.Base.{
  String, Bool, true, false, ◌≡◌, refl, sym, ap, ◌↔◌, ◌∙◌, some, if◌then◌else◌,
}
use k4all_operator.Base.Effect.{ok}
use k4all_operator.Base.Text.{format_bool, is_true, is_true-format_bool}
use k4all_operator.Config.Types.{Config}
use k4all_operator.Config.Parser.{map_spec, map_to_cluster_config}
use k4all_operator.Config.Writer.{convert_to_config, map_from_cluster_config, merge_configs}
use k4all_operator.Config.Convert.{convert_to_cluster_config_spec}
use k4all_operator.V1alpha1.{ClusterConfigSpec}

ok-injective : {s t : ClusterConfigSpec} → ok s ≡ ok t → s ≡ t
ok-injective h = cc

format_bool_if : (b : Bool) → format_bool b ≡ (if b then "true" else "false")
unfolding format_bool
format_bool_if true = refl
format_bool_if false = refl

is_true_if : (b : Bool) → is_true (if b then "true" else "false") ≡ b
unfolding is_true
is_true_if true = refl
is_true_if false = refl

if_self : (b : Bool) → (if b then true else false) ≡ b
if_self true = refl
if_self false = refl

ruleset flag_laws = (is_true_if, is_true-format_bool, if_self)

-- The two mappings from a spec to the file's structure agree.
pub convert_to_config-map_from_cluster_config :
    (s : ClusterConfigSpec) → convert_to_config s ≡ map_from_cluster_config s
unfolding convert_to_config map_from_cluster_config
convert_to_config-map_from_cluster_config s = simp format_bool_if

-- Mapping a spec into the file's structure and mapping that back gives the same spec.
pub map_to-map_from :
    (s : ClusterConfigSpec) → map_to_cluster_config (some (map_from_cluster_config s)) ≡ ok s
unfolding map_to_cluster_config map_from_cluster_config
map_to-map_from s = simp flag_laws

-- So does a merge of the spec into any content of the file: the spec wins in every field.
pub map_to-merge_configs :
    (file : Config) (s : ClusterConfigSpec)
    → map_to_cluster_config (some (merge_configs file s)) ≡ ok s
unfolding map_to_cluster_config merge_configs
map_to-merge_configs file s = simp flag_laws

abbrev canonical_flag : String → String
canonical_flag t = if is_true t then "true" else "false"

-- A file's content with its flags spelled "true" or "false" and the component versions removed.
unfoldable pub canonical : Config → Config
canonical c =
    let virt = c.features.virt in
    let argocd = c.features.argocd in
    record c {
      features = record {
        virt = record virt {
          enabled = canonical_flag virt.enabled;
          managed = canonical_flag virt.managed;
          version = "";
        };
        argocd = record {
          enabled = canonical_flag argocd.enabled;
          managed = canonical_flag argocd.managed;
          version = "";
        };
      };
    }

map_from-map_spec : (c : Config) → map_from_cluster_config (map_spec c) ≡ canonical c
unfolding map_spec map_from_cluster_config canonical
map_from-map_spec c = simp if_self

-- Mapping the file's content to a spec and that back gives the content in canonical form: the
-- texts are kept, the flags are normalised and the versions of the two components are lost.
pub map_from-map_to :
    (c : Config) (s : ClusterConfigSpec)
    → map_to_cluster_config (some c) ≡ ok s
    → map_from_cluster_config s ≡ canonical c
unfolding map_to_cluster_config
map_from-map_to c s h = sym (ap map_from_cluster_config (ok-injective h)) ∙ map_from-map_spec c

abbrev pub zero_with_version : String → ClusterConfigSpec
zero_with_version v = record {
  version = v;
  networking = record {
    cni = record { type = "" };
    firewalld = record { enabled = "" };
    interface = record {
      dev = "";
      ip_config = "";
      ip_addr = "";
      gateway = "";
      subnet_mask = "";
      dns = "";
      dns_search = "";
    };
  };
  features = record {
    virt = record { enabled = false; managed = false; emulation = "" };
    argocd = record { enabled = false; managed = false };
  };
  cluster = record {
    api_end_point_use_host_name = "";
    custom_api_end_point = "";
    ha = record {
      interface = "";
      type = "";
      api_control_endpoint = "";
      api_control_endpoint_subnet_size = "";
    };
  };
}

-- The conversion of `convert.go` gives back the spec that was written into the file exactly when
-- every field of that spec but the version is the zero value.
pub convert-map_from :
    (s : ClusterConfigSpec)
    → (convert_to_cluster_config_spec (some (map_from_cluster_config s)) ≡ some s)
      ↔ (s ≡ zero_with_version s.version)
unfolding convert_to_cluster_config_spec map_from_cluster_config
convert-map_from s = (λ h. cc, λ h. ap some (sym h))
