-- ===== src/Virt/Types.antt =====
-- The fields of `VirtReconciler`, and the resources that its methods name.
use k4all_operator.Base.{String, List, [], ◌∷◌, Option, none, some, Bool, false, ◌==◌}
use k4all_operator.World.Objects.{NamespacedName, Gvk}

pub record VirtReconciler : Type 0 where
  pub config_map_name : String
  pub config_map_ns : String
  pub tools_image : String
  pub values_config_map : String

abbrev pub cdi_gvk : Gvk
cdi_gvk = record { group = "cdi.kubevirt.io"; version = "v1beta1"; kind = "CDI" }

abbrev pub cdi_list_gvk : Gvk
cdi_list_gvk = record { group = "cdi.kubevirt.io"; version = "v1beta1"; kind = "CDIList" }

abbrev pub deployment_gvk : Gvk
deployment_gvk = record { group = "apps"; version = "v1"; kind = "Deployment" }

abbrev pub cdi_name : NamespacedName
cdi_name = record { name = "cdi"; namespace_ = "" }

abbrev pub manager_name : NamespacedName
manager_name = record { name = "kubevirt-manager"; namespace_ = "kubevirt-manager" }

abbrev pub phase_path : List String
phase_path = "status" ∷ "phase" ∷ []

-- found && phase == "Deployed"
unfoldable pub is_deployed : Option String → Bool
is_deployed none = false
is_deployed (some phase) = phase == "Deployed"
