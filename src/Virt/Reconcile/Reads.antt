-- ===== src/Virt/Reconcile/Reads.antt =====
-- When a reconciliation of the feature does nothing.
use k4all_operator.Base.{ℕ, String, ◌≡◌, ◌==◌, ◌&&◌, some, true, false, arith}
use k4all_operator.Base.Dict.{lookup}
use k4all_operator.Base.Effect.{ok, handle}
use k4all_operator.Config.Types.{Config}
use k4all_operator.Controller.Annotations.{finished}
use k4all_operator.Controller.ConfigSyncer.{made}
use k4all_operator.Virt.Reconcile.{with_config, with_config_map, reconcile}
use k4all_operator.Virt.Types.{VirtReconciler}
use k4all_operator.World.{Env, perform}
use k4all_operator.World.Objects.{NamespacedName, ConfigMap, Kind}
use k4all_operator.World.Requests.{Sys, get_object}

module _ (E : Env) (r : VirtReconciler) (fuel ticks : ℕ) where
  -- A request for another object than the operator's ConfigMap makes no call.
  reconcile-elsewhere :
      (req : NamespacedName) (s : Sys E.State E.Unstructured)
      → (req.name == r.config_map_name && req.namespace_ == r.config_map_ns) ≡ false
      → reconcile E r fuel ticks req s ≡ (ok finished, s)
  unfolding reconcile
  reconcile-elsewhere req s other = ground (arith, other)

  -- If the configuration in the ConfigMap does not say that the operator manages the feature, the
  -- reconciliation returns at once and makes no call but the one that reads the ConfigMap.
  reconcile-unmanaged :
      (req : NamespacedName) (s : Sys E.State E.Unstructured) (cm : ConfigMap) (text : String)
      (config : Config)
      → (perform E (get_object Kind.config_map req) s).0 ≡ ok cm
      → lookup "config.json" (made cm.entries) ≡ some text
      → E.unmarshal text ≡ ok config
      → (config.features.virt.managed == "true") ≡ false
      → (req.name == r.config_map_name && req.namespace_ == r.config_map_ns) ≡ true
      → reconcile E r fuel ticks req s
        ≡ (ok finished, (perform E (get_object Kind.config_map req) s).1)
  unfolding reconcile with_config_map with_config handle
  reconcile-unmanaged req s cm text config got entry parsed unmanaged here =
      ground (arith, got, entry, parsed, unmanaged, here)
