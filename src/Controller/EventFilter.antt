-- ===== src/Controller/EventFilter.antt =====
-- The event filters of the features' controllers, in SetupWithManager of virt_controller.go and of
-- argocd_controller.go.
use k4all_operator.Base.{String, ◌==◌, ◌&&◌, Bool, false}
use k4all_operator.World.Objects.{NamespacedName}

-- What happened to a ConfigMap.
pub data Change : Type 0 where
  created updated deleted : Change

-- CreateFunc, UpdateFunc and DeleteFunc: whether the ConfigMap's change is reconciled.
unfoldable pub passes : String → String → Change → NamespacedName → Bool
passes config_map_name config_map_ns deleted object = false
passes config_map_name config_map_ns _ object =
    object.name == config_map_name && object.namespace_ == config_map_ns
