-- ===== src/Tests/Memory.antt =====
-- A world in memory: the host's files, the cluster's objects and the pages of the network.
pub mod Laws
pub mod Quiet
pub mod Encoding
use Prim.Native.String.{String, []}
use k4all_operator.Base.{
  ℕ, zero, suc, ◌==◌, ◌&&◌, Option, none, some, Bool, true, false, List, [], ◌∷◌, if◌then◌else◌,
  ◌+◌,
}
use k4all_operator.Base.Effect.{Result, ok, err, panic, Error, not_found, not_exist, other}
use k4all_operator.Base.Int.{ℤ, pos}
use k4all_operator.Tests.Memory.Encoding.{encode, decode, encode_values, decode_values}
use k4all_operator.V1alpha1.{ClusterConfig}
use k4all_operator.World.{Env, Decoded, eof}
use k4all_operator.World.Objects.{
  NamespacedName, Gvk, ConfigMap, Namespace, Job, DaemonSet, Node, Kind,
}
use k4all_operator.World.Requests.{
  Request, Response, FileInfo, HttpResponse, get_object, create_object, update_object,
  delete_object, patch_object, list_nodes, list_pods, list_custom, pod_logs, stat_file, read_file,
  write_file, mkdir_all, rename_file, chmod_file, http_get,
}

pub record Doc : Type 0 where
  pub gvk : Gvk
  pub name : String
  pub namespace_ : String
  pub version : String
  pub phase : Option String
  pub replicas : Option ℤ
  pub emulation : Option Bool
  pub content : Bool

-- A page: its text, and what a YAML decoder reads from it.
pub record Page : Type 0 where
  pub text : String
  pub docs : List (Decoded Doc)

pub record Memory : Type 0 where
  pub files : String → Option String
  pub config_maps : NamespacedName → Option ConfigMap
  pub cluster_config : Option ClusterConfig
  pub namespaces : String → Bool
  pub daemon_set : Option DaemonSet
  pub job : Option Job
  pub customs : String → NamespacedName → Option Doc
  pub nodes : List Node
  pub pages : String → Option Page
  pub time : ℕ

abbrev pub same_name : NamespacedName → NamespacedName → Bool
same_name a b = a.name == b.name && a.namespace_ == b.namespace_

abbrev pub put {ℓ} : {V : Type ℓ} → String → V → (String → V) → String → V
put k v f j = if k == j then v else f j

abbrev pub put_name {ℓ} :
    {V : Type ℓ} → NamespacedName → V → (NamespacedName → V) → NamespacedName → V
put_name k v f j = if same_name k j then v else f j

abbrev pub doc_key : Doc → NamespacedName
doc_key d = record { name = d.name; namespace_ = d.namespace_ }

abbrev found {ℓ} : {V : Type ℓ} → Option V → Result V
found none = err not_found
found (some v) = ok v

-- an object is found under its own name only
abbrev pub config_map_named : NamespacedName → Option ConfigMap → Result ConfigMap
config_map_named n none = err not_found
config_map_named n (some cm) =
    if same_name (record { name = cm.name; namespace_ = cm.namespace_ }) n
    then ok cm
    else err (other "misplaced")

abbrev pub doc_named : NamespacedName → Option Doc → Result Doc
doc_named n none = err not_found
doc_named n (some d) = if same_name (doc_key d) n then ok d else err (other "misplaced")

abbrev file_of : Option String → Result String
file_of none = err not_exist
file_of (some text) = ok text

abbrev pub rename : String → String → Memory → Option String → Result (Unit {0}) × Memory
rename a b m none = (err not_exist, m)
rename a b m (some text) = (ok tt, record m { files = put b (some text) (put a none m.files) })

abbrev stat : Option String → Result FileInfo
stat none = err not_exist
stat (some text) = ok (record { size = 1; mod_time = pos 7; perm = 420 })

abbrev page_of : Option Page → Result (HttpResponse Page)
page_of none = err (other "no such host")
page_of (some p) = ok (record { status_code = 200; body = p })

unfoldable pub answer : (r : Request Doc) → Memory → Result (Response Doc Page r) × Memory
answer (get_object Kind.cluster_config n) m = (found m.cluster_config, m)
answer (get_object Kind.config_map n) m = (config_map_named n (m.config_maps n), m)
answer (get_object Kind.namespace_ n) m =
    ((if m.namespaces n.name then ok (record { name = n.name }) else err not_found), m)
answer (get_object Kind.job n) m = (found m.job, m)
answer (get_object Kind.pod n) m = (err not_found, m)
answer (get_object Kind.daemon_set n) m = (found m.daemon_set, m)
answer (get_object (Kind.custom gvk) n) m = (doc_named n (m.customs gvk.kind n), m)
answer (create_object Kind.cluster_config o) m = (ok tt, record m { cluster_config = some o })
answer (create_object Kind.config_map o) m = (
  ok tt,
  record m {
    config_maps =
        put_name (record { name = o.name; namespace_ = o.namespace_ }) (some o) m.config_maps;
  },
)
answer (create_object Kind.namespace_ o) m =
    (ok tt, record m { namespaces = put o.name true m.namespaces })
answer (create_object Kind.daemon_set o) m = (
  ok tt,
  record m { daemon_set = some (record o { number_ready = 1; desired_number_scheduled = 1 }) },
)
answer (create_object (Kind.custom gvk) o) m = (
  ok tt,
  record m {
    customs = put gvk.kind (put_name (doc_key o) (some o) (m.customs gvk.kind)) m.customs;
  },
)
answer (create_object Kind.job o) m = (
  ok tt,
  record m {
    job = some (record o {
      conditions = (record { type = "Complete"; status = "True"; reason = "" }) ∷ [];
    });
  },
)
answer (create_object Kind.pod o) m = (ok tt, m)
answer (update_object Kind.cluster_config o) m = (ok tt, record m { cluster_config = some o })
answer (update_object Kind.config_map o) m = (
  ok tt,
  record m {
    config_maps =
        put_name (record { name = o.name; namespace_ = o.namespace_ }) (some o) m.config_maps;
  },
)
answer (update_object Kind.namespace_ o) m = (ok tt, m)
answer (update_object Kind.daemon_set o) m = (ok tt, m)
answer (update_object Kind.job o) m = (ok tt, m)
answer (update_object Kind.pod o) m = (ok tt, m)
answer (update_object (Kind.custom gvk) o) m = (
  ok tt,
  record m {
    customs = put gvk.kind (put_name (doc_key o) (some o) (m.customs gvk.kind)) m.customs;
  },
)
answer (delete_object k n) m = (ok tt, m)
answer (patch_object gvk n patch) m = (ok tt, m)
answer list_nodes m = (ok m.nodes, m)
answer (list_pods a b) m = (ok [], m)
answer (list_custom gvk) m = (ok tt, m)
answer (pod_logs a b c) m = (ok "", m)
answer (stat_file p) m = (stat (m.files p), m)
answer (read_file p) m = (file_of (m.files p), m)
answer (write_file p text) m = (ok tt, record m { files = put p (some text) m.files })
answer (mkdir_all p) m = (ok tt, m)
answer (rename_file a b) m = rename a b m (m.files a)
answer (chmod_file p perm) m = (ok tt, m)
answer (http_get url) m = (page_of (m.pages url), m)

abbrev nth : {V : Type 0} → List (Decoded V) → ℕ → Decoded V
nth [] n = eof
nth (d ∷ ds) zero = d
nth (d ∷ ds) (suc n) = nth ds n

-- a poll looks once
abbrev pub once : Result Bool → Result (Unit {0})
once (ok true) = ok tt
once (ok false) = err (other "timeout")
once (err e) = err e
once (panic p) = panic p

abbrev pub memory : Env
memory = record {
  State = Memory;
  Unstructured = Doc;
  Body = Page;
  respond = answer;
  clock = λ m. (pos m.time, record m { time = suc m.time });
  elapse = λ n m. record m { time = n + m.time };
  poll = λ interval timeout immediate condition s. (once (condition s).0, (condition s).1);
  -- in this world an object comes up as soon as it is stored
  new_object = λ gvk name ns. record {
    gvk = gvk;
    name = name;
    namespace_ = ns;
    version = "";
    phase = some "Deployed";
    replicas = none;
    emulation = none;
    content = true;
  };
  gvk_of = λ d. d.gvk;
  api_version_of = λ d. d.gvk.version;
  name_of = λ d. d.name;
  namespace_of = λ d. d.namespace_;
  has_content = λ d. d.content;
  resource_version_of = λ d. d.version;
  set_resource_version = λ v d. record d { version = v };
  clear_finalizers = λ d. d;
  nested_string = λ d path. ok d.phase;
  nested_int64 = λ d path. ok d.replicas;
  nested_bool = λ d path. ok d.emulation;
  set_nested_bool = λ value path d. ok (record d { emulation = some value });
  read_all = λ p. ok p.text;
  decode_yaml = λ p n. nth p.docs n;
  decode_tag_name = λ p. ok p.text;
  dir = λ p. p;
  marshal_indent = encode;
  marshal = encode;
  unmarshal = decode;
  marshal_values = encode_values;
  unmarshal_values = decode_values;
}
