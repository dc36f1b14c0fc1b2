-- ===== src/World/ConfigMaps.antt =====
-- What the program relies on of the API server, and of the client that reads from a cache, for its
-- ConfigMaps, while nobody else writes them. A read may be out of date: what it gives is the stored
-- ConfigMap only where the cache is up to date with it.
use k4all_operator.Base.{ℕ, String, ◌≡◌, ◌≢◌, Option, none, some, true}
use k4all_operator.Base.Effect.{Error, is_not_found, ok, err}
use k4all_operator.World.{Env}
use k4all_operator.World.Objects.{NamespacedName, ConfigMap, Kind}
use k4all_operator.World.FileSystem.{IsFileSystem}
use k4all_operator.World.Requests.{Request, get_object, create_object, update_object, read_file}

abbrev pub config_map_key : ConfigMap → NamespacedName
config_map_key cm = record { name = cm.name; namespace_ = cm.namespace_ }

-- Calls that concern neither this ConfigMap nor its whole namespace, and no object of a kind that is
-- known only as the program runs.
abbrev pub Leaves : NamespacedName → {U : Type 0} → Request U → Type 0
Leaves n (Request.get_object _ _) = Unit
Leaves n Request.list_nodes = Unit
Leaves n (Request.list_pods _ _) = Unit
Leaves n (Request.list_custom _) = Unit
Leaves n (Request.pod_logs _ _ _) = Unit
Leaves n (Request.create_object Kind.config_map cm) = config_map_key cm ≢ n
Leaves n (Request.create_object Kind.namespace_ _) = Unit
Leaves n (Request.create_object Kind.job _) = Unit
Leaves n (Request.update_object Kind.config_map cm) = config_map_key cm ≢ n
Leaves n (Request.update_object Kind.cluster_config _) = Unit
Leaves n (Request.delete_object Kind.job _) = Unit
Leaves n (Request.delete_object Kind.pod _) = Unit
Leaves n (Request.delete_object Kind.namespace_ m) = m.name ≢ n.namespace_
Leaves n (Request.stat_file _) = Unit
Leaves n (Request.read_file _) = Unit
Leaves n (Request.write_file _ _) = Unit
Leaves n (Request.mkdir_all _) = Unit
Leaves n (Request.rename_file _ _) = Unit
Leaves n (Request.http_get _) = Unit
Leaves n _ = ⊥

pub record IsConfigMapStore (E : Env) : Type 1 where
  pub stored : E.State → NamespacedName → Option ConfigMap
  -- the client's cache, which it reads from, has the last version of this ConfigMap
  pub current : E.State → NamespacedName → Type 0
  pub get-named :
      (n : NamespacedName) (cm : ConfigMap) (st : E.State)
      → (E.respond (get_object Kind.config_map n) st).0 ≡ ok cm
      → config_map_key cm ≡ n
  pub get-ok :
      (n : NamespacedName) (cm : ConfigMap) (st : E.State)
      → current st n
      → (E.respond (get_object Kind.config_map n) st).0 ≡ ok cm
      → stored st n ≡ some cm
  pub get-not_found :
      (n : NamespacedName) (e : Error) (st : E.State)
      → current st n
      → (E.respond (get_object Kind.config_map n) st).0 ≡ err e
      → is_not_found e ≡ true
      → stored st n ≡ none
  pub stored-get :
      (n m : NamespacedName) (st : E.State)
      → stored (E.respond (get_object Kind.config_map n) st).1 m ≡ stored st m
  pub stored-create :
      (cm : ConfigMap) (st : E.State)
      → (E.respond (create_object Kind.config_map cm) st).0 ≡ ok tt
      → stored (E.respond (create_object Kind.config_map cm) st).1 (config_map_key cm) ≡ some cm
  pub stored-update :
      (cm : ConfigMap) (st : E.State)
      → (E.respond (update_object Kind.config_map cm) st).0 ≡ ok tt
      → stored (E.respond (update_object Kind.config_map cm) st).1 (config_map_key cm) ≡ some cm
  -- the cache stays up to date while the ConfigMap is not written
  pub current-left :
      (q : Request E.Unstructured) (n : NamespacedName) (st : E.State)
      → Leaves n q
      → current st n
      → current (E.respond q st).1 n
  pub current-clock : (n : NamespacedName) (st : E.State) → current st n → current (E.clock st).1 n
  pub current-elapse :
      (seconds : ℕ) (n : NamespacedName) (st : E.State)
      → current st n
      → current (E.elapse seconds st) n

-- The ConfigMaps and the host's files are apart from one another.
pub record IsApart (E : Env) (F : IsFileSystem E) (M : IsConfigMapStore E) : Type 0 where
  pub stored-read :
      (p : String) (n : NamespacedName) (st : E.State)
      → M.stored (E.respond (read_file p) st).1 n ≡ M.stored st n
  pub content-get :
      (n : NamespacedName) (p : String) (st : E.State)
      → F.content (E.respond (get_object Kind.config_map n) st).1 p ≡ F.content st p
  pub content-create :
      (cm : ConfigMap) (p : String) (st : E.State)
      → F.content (E.respond (create_object Kind.config_map cm) st).1 p ≡ F.content st p
  pub content-update :
      (cm : ConfigMap) (p : String) (st : E.State)
      → F.content (E.respond (update_object Kind.config_map cm) st).1 p ≡ F.content st p

-- Such calls, and waiting, leave the ConfigMap as it is stored.
pub record IsSeparate (E : Env) (M : IsConfigMapStore E) : Type 0 where
  pub stored-left :
      (q : Request E.Unstructured) (n : NamespacedName) (st : E.State)
      → Leaves n q
      → M.stored (E.respond q st).1 n ≡ M.stored st n
  pub stored-clock : (n : NamespacedName) (st : E.State) → M.stored (E.clock st).1 n ≡ M.stored st n
  pub stored-elapse :
      (seconds : ℕ) (n : NamespacedName) (st : E.State)
      → M.stored (E.elapse seconds st) n ≡ M.stored st n
