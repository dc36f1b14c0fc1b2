-- ===== src/World/Emits.antt =====
-- Which calls an action may make: every call that it adds to the trace satisfies a predicate.
pub mod Course
pub mod Traces
pub use Traces.{Emitted, here, more, Emitted-trans, Emitted-weaken, IsRead, Anything}
use k4all_operator.Base.{ℕ, String, List, ◌∷◌}
use k4all_operator.Base.Keeps.{Keeps}
use k4all_operator.World.{Env, Program, called, looked, waited, perform, unix_now, pause}
use k4all_operator.World.Objects.{
  NamespacedName, Gvk, Kind, ConfigMap, Namespace, Job, DaemonSet, Node, Pod, Obj,
}
use k4all_operator.World.Requests.{
  Request, Event, Sys, FileInfo, HttpResponse, get_object, create_object, update_object,
  delete_object, patch_object, list_custom, list_nodes, list_pods, pod_logs, stat_file, read_file,
  http_get,
}
use k4all_operator.V1alpha1.{ClusterConfig}

-- A trace to start from, and a property of the world that allowed calls and waiting preserve.
pub record Origin (E : Env) (P : Request E.Unstructured → Type 0) : Type 1 where
  pub trace : List (Event E.Unstructured)
  pub holds : Sys E.State E.Unstructured → Type 0
  pub kept :
      (r : Request E.Unstructured) (s : Sys E.State E.Unstructured)
      → P r
      → holds s
      → holds (called E r s)
  pub kept_clock : (s : Sys E.State E.Unstructured) → holds s → holds (looked E s)
  pub kept_elapse : (n : ℕ) (s : Sys E.State E.Unstructured) → holds s → holds (waited E n s)

-- A trace, and nothing asked of the world.
abbrev pub from_trace :
    (E : Env) (P : Request E.Unstructured → Type 0) → List (Event E.Unstructured) → Origin E P
from_trace E P trace = record {
  trace = trace;
  holds = λ _. Unit;
  kept = λ r st h k. tt;
  kept_clock = λ st k. tt;
  kept_elapse = λ n st k. tt;
}

-- The trace of a state extends the origin's by allowed calls only, and the property holds.
abbrev pub Since :
    {E : Env} (P : Request E.Unstructured → Type 0)
    → Origin E P
    → Sys E.State E.Unstructured
    → Type 0
Since P old s = Emitted P old.trace s.trace × old.holds s

-- An action makes allowed calls only, from any state.
abbrev pub Emits :
    (E : Env) (P : Request E.Unstructured → Type 0) {A : Type 0} → Program E A → Type 0
Emits E P m = (s : Sys E.State E.Unstructured) → Emitted P s.trace (m s).1.trace

module _ (E : Env) (P : Request E.Unstructured → Type 0) where
  pub perform-Since :
      (old : Origin E P) (r : Request E.Unstructured) → P r → Keeps (Since P old) (perform E r)
  unfolding perform
  perform-Since old r allowed = record {
    at = λ s h. (more _ allowed h.0, old.kept r s allowed h.1);
  }

  -- The same for the calls whose answer is no `Unit`, at the type of the answer.
  pub get_config_map-Since :
      (old : Origin E P) (n : NamespacedName)
      → P (get_object Kind.config_map n)
      → Keeps {A = ConfigMap} (Since P old) (perform E (get_object Kind.config_map n))
  get_config_map-Since old n = perform-Since old (get_object Kind.config_map n)

  pub get_cluster_config-Since :
      (old : Origin E P) (n : NamespacedName)
      → P (get_object Kind.cluster_config n)
      → Keeps {A = ClusterConfig} (Since P old) (perform E (get_object Kind.cluster_config n))
  get_cluster_config-Since old n = perform-Since old (get_object Kind.cluster_config n)

  pub get_namespace-Since :
      (old : Origin E P) (n : NamespacedName)
      → P (get_object Kind.namespace_ n)
      → Keeps {A = Namespace} (Since P old) (perform E (get_object Kind.namespace_ n))
  get_namespace-Since old n = perform-Since old (get_object Kind.namespace_ n)

  pub get_job-Since :
      (old : Origin E P) (n : NamespacedName)
      → P (get_object Kind.job n)
      → Keeps {A = Job} (Since P old) (perform E (get_object Kind.job n))
  get_job-Since old n = perform-Since old (get_object Kind.job n)

  pub get_daemon_set-Since :
      (old : Origin E P) (n : NamespacedName)
      → P (get_object Kind.daemon_set n)
      → Keeps {A = DaemonSet} (Since P old) (perform E (get_object Kind.daemon_set n))
  get_daemon_set-Since old n = perform-Since old (get_object Kind.daemon_set n)

  pub get_custom-Since :
      (old : Origin E P) (gvk : Gvk) (n : NamespacedName)
      → P (get_object (Kind.custom gvk) n)
      → Keeps {A = E.Unstructured} (Since P old) (perform E (get_object (Kind.custom gvk) n))
  get_custom-Since old gvk n = perform-Since old (get_object (Kind.custom gvk) n)

  pub list_nodes-Since :
      (old : Origin E P) → P list_nodes → Keeps {A = List Node} (Since P old) (perform E list_nodes)
  list_nodes-Since old = perform-Since old list_nodes

  pub list_pods-Since :
      (old : Origin E P) (a b : String)
      → P (list_pods a b)
      → Keeps {A = List Pod} (Since P old) (perform E (list_pods a b))
  list_pods-Since old a b = perform-Since old (list_pods a b)

  pub pod_logs-Since :
      (old : Origin E P) (a b c : String)
      → P (pod_logs a b c)
      → Keeps {A = String} (Since P old) (perform E (pod_logs a b c))
  pod_logs-Since old a b c = perform-Since old (pod_logs a b c)

  pub stat_file-Since :
      (old : Origin E P) (path : String)
      → P (stat_file path)
      → Keeps {A = FileInfo} (Since P old) (perform E (stat_file path))
  stat_file-Since old path = perform-Since old (stat_file path)

  pub read_file-Since :
      (old : Origin E P) (path : String)
      → P (read_file path)
      → Keeps {A = String} (Since P old) (perform E (read_file path))
  read_file-Since old path = perform-Since old (read_file path)

  pub http_get-Since :
      (old : Origin E P) (url : String)
      → P (http_get url)
      → Keeps {A = HttpResponse E.Body} (Since P old) (perform E (http_get url))
  http_get-Since old url = perform-Since old (http_get url)

  -- The same for the writes, whose answer is `Unit`.
  pub create_object-Since :
      (old : Origin E P) (k : Kind) (o : Obj E.Unstructured k)
      → P (create_object k o)
      → Keeps {A = Unit} (Since P old) (perform E (create_object k o))
  create_object-Since old k o = perform-Since old (create_object k o)

  pub update_object-Since :
      (old : Origin E P) (k : Kind) (o : Obj E.Unstructured k)
      → P (update_object k o)
      → Keeps {A = Unit} (Since P old) (perform E (update_object k o))
  update_object-Since old k o = perform-Since old (update_object k o)

  pub delete_object-Since :
      (old : Origin E P) (k : Kind) (n : NamespacedName)
      → P (delete_object k n)
      → Keeps {A = Unit} (Since P old) (perform E (delete_object k n))
  delete_object-Since old k n = perform-Since old (delete_object k n)

  pub patch_object-Since :
      (old : Origin E P) (gvk : Gvk) (n : NamespacedName) (patch : String)
      → P (patch_object gvk n patch)
      → Keeps {A = Unit} (Since P old) (perform E (patch_object gvk n patch))
  patch_object-Since old gvk n patch = perform-Since old (patch_object gvk n patch)

  pub list_custom-Since :
      (old : Origin E P) (gvk : Gvk)
      → P (list_custom gvk)
      → Keeps {A = Unit} (Since P old) (perform E (list_custom gvk))
  list_custom-Since old gvk = perform-Since old (list_custom gvk)

  pub unix_now-Since : (old : Origin E P) → Keeps (Since P old) (unix_now E)
  unfolding unix_now
  unix_now-Since old = record { at = λ s h. (h.0, old.kept_clock s h.1) }

  pub pause-Since : (old : Origin E P) (n : ℕ) → Keeps (Since P old) (pause E n)
  unfolding pause
  pause-Since old n = record { at = λ s h. (h.0, old.kept_elapse n s h.1) }

  pub waits-Since :
      (old : Origin E P) (n : ℕ) (s : Sys E.State E.Unstructured)
      → Since P old s
      → Since P old (waited E n s)
  waits-Since old n s h = (h.0, old.kept_elapse n s h.1)

  -- An action that keeps `Since` makes allowed calls only.
  pub Since-Emits :
      {A : Type 0} (m : Program E A) → ((old : Origin E P) → Keeps (Since P old) m) → Emits E P m
  Since-Emits m k s = ((k (from_trace E P s.trace)).at s (here, tt)).0

-- A part that makes fewer calls, from a state in its midst.
abbrev pub restart :
    (E : Env) (P Q : Request E.Unstructured → Type 0)
    → ((r : Request E.Unstructured) → P r → Q r)
    → Origin E Q
    → List (Event E.Unstructured)
    → Origin E P
restart E P Q fewer old trace = record {
  trace = trace;
  holds = old.holds;
  kept = λ r st h k. old.kept r st (fewer r h) k;
  kept_clock = old.kept_clock;
  kept_elapse = old.kept_elapse;
}

pub Since-restart :
    (E : Env) (P Q : Request E.Unstructured → Type 0)
    (fewer : (r : Request E.Unstructured) → P r → Q r) (old : Origin E Q)
    (s t : Sys E.State E.Unstructured)
    → Since Q old s
    → Since P (restart E P Q fewer old s.trace) t
    → Since Q old t
Since-restart E P Q fewer old s t h k = (Emitted-trans h.0 (Emitted-weaken fewer k.0), k.1)

pub Keeps-fewer :
    (E : Env) (P Q : Request E.Unstructured → Type 0)
    (fewer : (r : Request E.Unstructured) → P r → Q r) {A : Type 0} (m : Program E A)
    → ((old : Origin E P) → Keeps (Since P old) m)
    → (old : Origin E Q) → Keeps (Since Q old) m
Keeps-fewer E P Q fewer m k old = record {
  at = λ s h.
      Since-restart E P Q fewer old s (m s).1 h
        ((k (restart E P Q fewer old s.trace)).at s (here, h.1));
}

pub ruleset since_rules = (
  perform-Since, get_config_map-Since, get_cluster_config-Since, get_namespace-Since, get_job-Since,
  get_daemon_set-Since, get_custom-Since, list_nodes-Since, list_pods-Since, pod_logs-Since,
  create_object-Since, update_object-Since, delete_object-Since, patch_object-Since,
  list_custom-Since, stat_file-Since, read_file-Since, http_get-Since, unix_now-Since, pause-Since,
)
