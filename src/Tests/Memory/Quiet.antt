-- ===== src/Tests/Memory/Quiet.antt =====
-- What the calls of the world in memory leave alone.
use k4all_operator.Base.{
  ◌≡◌, ◌≢◌, refl, String, Option, none, some, true, arith, eq_iff, Bool-cases, inl, inr,
}
use k4all_operator.Tests.Memory.{Doc, Memory, memory, answer, same_name, put_name, rename}
use k4all_operator.World.ConfigMaps.{config_map_key, IsSeparate, Leaves}
use k4all_operator.World.FileSystem.{LeavesFiles, IsHost}
use k4all_operator.World.Objects.{NamespacedName, ConfigMap, Kind}
use k4all_operator.World.Requests.{
  Request, get_object, create_object, update_object, delete_object, patch_object, list_nodes,
  list_pods, list_custom, pod_logs, stat_file, read_file, write_file, mkdir_all, rename_file,
  chmod_file, http_get,
}
use k4all_operator.Tests.Memory.Laws.{file_system, config_map_store}

same_name_lem : (a b : NamespacedName) → same_name a b ≡ true → a ≡ b
same_name_lem a b h =
    let (name, ns) : (a.name ≡ b.name) × (a.namespace_ ≡ b.namespace_) =
      ground (arith, h, eq_iff a.name b.name, eq_iff a.namespace_ b.namespace_) in
    λ i. record { name = name i; namespace_ = ns i }

other_name :
    (cm : ConfigMap) (n : NamespacedName) (f : NamespacedName → Option ConfigMap)
    → config_map_key cm ≢ n
    → put_name (config_map_key cm) (some cm) f n ≡ f n
other_name cm n f ne = elim (Bool-cases (same_name (config_map_key cm) n)) [
  | inl same ↦ absurd (ne (same_name_lem (config_map_key cm) n same))
  | inr apart ↦ rw apart refl
]

renamed :
    (a b : String) (n : NamespacedName) (m : Memory) (held : Option String)
    → (rename a b m held).1.config_maps n ≡ m.config_maps n
renamed a b n m none = refl
renamed a b n m (some text) = refl

stored-left :
    (q : Request Doc) (n : NamespacedName) (m : Memory)
    → Leaves n q
    → (answer q m).1.config_maps n ≡ m.config_maps n
unfolding answer
stored-left (get_object Kind.cluster_config k) n m h = refl
stored-left (get_object Kind.config_map k) n m h = refl
stored-left (get_object Kind.namespace_ k) n m h = refl
stored-left (get_object Kind.job k) n m h = refl
stored-left (get_object Kind.pod k) n m h = refl
stored-left (get_object Kind.daemon_set k) n m h = refl
stored-left (get_object (Kind.custom gvk) k) n m h = refl
stored-left list_nodes n m h = refl
stored-left (list_pods a b) n m h = refl
stored-left (list_custom gvk) n m h = refl
stored-left (pod_logs a b c) n m h = refl
stored-left (create_object Kind.config_map cm) n m h = other_name cm n m.config_maps h
stored-left (create_object Kind.namespace_ o) n m h = refl
stored-left (create_object Kind.job o) n m h = refl
stored-left (update_object Kind.config_map cm) n m h = other_name cm n m.config_maps h
stored-left (update_object Kind.cluster_config o) n m h = refl
stored-left (delete_object Kind.job k) n m h = refl
stored-left (delete_object Kind.pod k) n m h = refl
stored-left (delete_object Kind.namespace_ k) n m h = refl
stored-left (stat_file p) n m h = refl
stored-left (read_file p) n m h = refl
stored-left (write_file p t) n m h = refl
stored-left (mkdir_all p) n m h = refl
stored-left (rename_file a b) n m h = renamed a b n m (m.files a)
stored-left (http_get url) n m h = refl
stored-left _ n m h = absurd h

pub separate : IsSeparate memory config_map_store
unfolding config_map_store
separate = record {
  stored-left = stored-left;
  stored-clock = λ n m. refl;
  stored-elapse = λ seconds n m. refl;
}

content-left :
    (q : Request Doc) (p : String) (m : Memory) → LeavesFiles q → (answer q m).1.files p ≡ m.files p
unfolding answer
content-left (get_object Kind.cluster_config k) p m h = refl
content-left (get_object Kind.config_map k) p m h = refl
content-left (get_object Kind.namespace_ k) p m h = refl
content-left (get_object Kind.job k) p m h = refl
content-left (get_object Kind.pod k) p m h = refl
content-left (get_object Kind.daemon_set k) p m h = refl
content-left (get_object (Kind.custom gvk) k) p m h = refl
content-left (create_object Kind.cluster_config o) p m h = refl
content-left (create_object Kind.config_map o) p m h = refl
content-left (create_object Kind.namespace_ o) p m h = refl
content-left (create_object Kind.job o) p m h = refl
content-left (create_object Kind.pod o) p m h = refl
content-left (create_object Kind.daemon_set o) p m h = refl
content-left (create_object (Kind.custom gvk) o) p m h = refl
content-left (update_object Kind.cluster_config o) p m h = refl
content-left (update_object Kind.config_map o) p m h = refl
content-left (update_object Kind.namespace_ o) p m h = refl
content-left (update_object Kind.job o) p m h = refl
content-left (update_object Kind.pod o) p m h = refl
content-left (update_object Kind.daemon_set o) p m h = refl
content-left (update_object (Kind.custom gvk) o) p m h = refl
content-left (delete_object k n) p m h = refl
content-left (patch_object gvk n patch) p m h = refl
content-left list_nodes p m h = refl
content-left (list_pods a b) p m h = refl
content-left (list_custom gvk) p m h = refl
content-left (pod_logs a b c) p m h = refl
content-left (stat_file a) p m h = refl
content-left (read_file a) p m h = refl
content-left (mkdir_all a) p m h = refl
content-left (chmod_file a perm) p m h = refl
content-left (http_get url) p m h = refl
content-left (write_file a t) p m h = absurd h
content-left (rename_file a b) p m h = absurd h

pub host : IsHost memory file_system
unfolding file_system
host = record {
  content-left = content-left;
  content-clock = λ p m. refl;
  content-elapse = λ n p m. refl;
}
