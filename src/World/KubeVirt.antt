-- ===== src/World/KubeVirt.antt =====
-- What the program relies on of the API server and of apimachinery for the emulation setting of
-- KubeVirt's resource, while nobody else writes it. The manager's client reads an unstructured
-- object from the API server itself and not from its cache, unless its options ask for the cache,
-- which those of cmd/main.go do not.
use k4all_operator.Base.{String, Bool, Option, some, List, ◌≡◌}
use k4all_operator.Base.Effect.{Result, ok}
use k4all_operator.World.{Env}
use k4all_operator.World.Objects.{NamespacedName, Gvk, Kind}
use k4all_operator.World.Requests.{get_object, update_object}

pub record HasField (E : Env) (gvk : Gvk) (key : NamespacedName) (path : List String) : Type 0 where
  -- the field of the stored resource, as it reads
  pub field : E.State → Result (Option Bool)
  pub get-field :
      (obj : E.Unstructured) (st : E.State)
      → (E.respond (get_object (Kind.custom gvk) key) st).0 ≡ ok obj
      → (E.nested_bool obj path ≡ field st)
        × (E.name_of obj ≡ key.name)
        × (E.namespace_of obj ≡ key.namespace_)
  pub field-get :
      (st : E.State) → field (E.respond (get_object (Kind.custom gvk) key) st).1 ≡ field st
  pub field-update :
      (obj : E.Unstructured) (st : E.State)
      → E.name_of obj ≡ key.name
      → E.namespace_of obj ≡ key.namespace_
      → (E.respond (update_object (Kind.custom gvk) obj) st).0 ≡ ok tt
      → field (E.respond (update_object (Kind.custom gvk) obj) st).1 ≡ E.nested_bool obj path
  -- unstructured.SetNestedField
  pub nested_bool-set :
      (value : Bool) (obj updated : E.Unstructured)
      → E.set_nested_bool value path obj ≡ ok updated
      → (E.nested_bool updated path ≡ ok (some value))
        × (E.name_of updated ≡ E.name_of obj)
        × (E.namespace_of updated ≡ E.namespace_of obj)
