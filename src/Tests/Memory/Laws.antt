-- ===== src/Tests/Memory/Laws.antt =====
-- The world in memory behaves as the theorems ask for.
use k4all_operator.Base.{
  ◌≡◌, ◌≢◌, refl, subst, String, Option, none, some, Bool, true, false, arith, eq_iff, [], ◌∷◌,
  ◌==◌, Bool-cases, inl, inr,
}
use k4all_operator.Base.Effect.{Result, ok, err, panic, Error, is_not_found}
use k4all_operator.Downloader.Ready.{kubevirt_gvk, kubevirt_name}
use k4all_operator.Tests.Memory.{Doc, memory, answer, config_map_named, doc_named, once}
use k4all_operator.Tests.Memory.Encoding.{
  sample_text, sample, same_lem, encode, encode_values, decode_values,
}
use k4all_operator.Virt.Emulation.{use_emulation_path}
use k4all_operator.Config.Types.{Config}
use k4all_operator.World.{Json, Values, IsCalm}
use k4all_operator.World.Codec.{IsCodec, SameValues}
use k4all_operator.Base.Dict.{lookup}
use k4all_operator.World.ConfigMaps.{config_map_key, IsConfigMapStore, IsApart}
use k4all_operator.World.FileSystem.{IsFileSystem}
use k4all_operator.World.KubeVirt.{HasField}
use k4all_operator.World.Objects.{NamespacedName, ConfigMap, Kind}
use k4all_operator.World.Requests.{
  get_object, create_object, update_object, delete_object, patch_object, list_nodes, list_pods,
  list_custom, pod_logs, stat_file, read_file, write_file, mkdir_all, rename_file, chmod_file,
  http_get,
}
use k4all_operator.World.Polling.{IsPolling}

unfoldable pub file_system : IsFileSystem memory
unfolding answer
file_system = record {
  content = λ m p. m.files p;
  read-ok = λ p c m h. ground (arith, h);
  content-read = λ p q m. refl;
  content-mkdir = λ p q m. refl;
  content-write = λ p c m done. ground (arith, eq_iff p p);
  content-write_ne = λ p c q m ne. ground (arith, ne, eq_iff p q);
  content-rename = λ a b m done. ground (arith, done, eq_iff b b);
  content-rename_ne = λ a b q m ne_a ne_b. ground (arith, ne_a, ne_b, eq_iff a q, eq_iff b q);
  content-rename_failed = λ a b q m failed. ground (arith, failed);
}

ok-injective : (a b : String) → ok a ≡ ok b → a ≡ b
ok-injective a b h = cc

named :
    (k j x t : String)
    → encode_values (some ((k, Json.text x) ∷ (j, Json.bool true) ∷ [])) ≡ ok t
    → (k ≡ "version") × (j ≡ "managed") × (String.◌∷◌ "v" x ≡ t)
named k j x t h = (
  ground (arith, h, eq_iff k "version"),
  ground (arith, h, eq_iff j "managed"),
  ok-injective (String.◌∷◌ "v" x) t (ground (arith, h)),
)

-- the order of the two entries does not matter
sorted :
    (x i : String)
    → lookup i (("managed", Json.bool true) ∷ ("version", Json.text x) ∷ [])
      ≡ lookup i (("version", Json.text x) ∷ ("managed", Json.bool true) ∷ [])
unfolding lookup
sorted x i = elim (Bool-cases ("managed" == i)) [
  | inl same ↦
      subst
        (λ u.
          lookup u (("managed", Json.bool true) ∷ ("version", Json.text x) ∷ [])
          ≡ lookup u (("version", Json.text x) ∷ ("managed", Json.bool true) ∷ []))
        ((eq_iff "managed" i).0 same) refl
  | inr differs ↦ rw (differs, lookup)
]

encoded_text : (c : Config) (t : String) → encode c ≡ ok t → t ≡ sample_text
encoded_text c t h = ground (arith, h)

pub codec : IsCodec memory
codec = record {
  unmarshal-marshal_indent = λ c t h. ground (arith, h, same_lem c sample, eq_iff t sample_text);
  unmarshal_values-marshal_values = values;
  marshal_indent-ne = λ c t h e. cc (encoded_text c t h, e);
  marshal_values-ne = values_ne;
}
  where
    values :
        (v : Values) (t : String)
        → encode_values v ≡ ok t
        → (w : Values) × (decode_values t ≡ ok w) × SameValues w v
    values none t h = cc
    values (some []) t h = cc
    values (some ((k, Json.text x) ∷ [])) t h = cc
    values (some ((k, Json.text x) ∷ (j, Json.bool false) ∷ d)) t h = cc
    values (some ((k, Json.text x) ∷ (j, Json.text y) ∷ d)) t h = cc
    values (some ((k, Json.text x) ∷ (j, Json.raw y) ∷ d)) t h = cc
    values (some ((k, Json.text x) ∷ (j, Json.bool true) ∷ (a ∷ b))) t h = cc
    values (some ((k, Json.text x) ∷ (j, Json.bool true) ∷ [])) t h =
        let (version, managed, text) = named k j x t h in
        (
          some (("managed", Json.bool true) ∷ ("version", Json.text x) ∷ []),
          subst
              (λ u.
                decode_values u
                ≡ ok (some (("managed", Json.bool true) ∷ ("version", Json.text x) ∷ [])))
              text refl,
          λ i. rw (version, managed) (sorted x i),
        )
    values (some ((k, Json.bool x) ∷ d)) t h = cc
    values (some ((k, Json.raw x) ∷ d)) t h = cc

    values_ne : (v : Values) (t : String) → encode_values v ≡ ok t → t ≢ ""
    values_ne v t h e =
        let (w, decoded, same) = values v t h in cc (subst (λ u. decode_values u ≡ ok w) e decoded)

pub is_calm : IsCalm memory
unfolding answer
is_calm (get_object Kind.cluster_config n) m = ground arith
is_calm (get_object Kind.config_map n) m = ground arith
is_calm (get_object Kind.namespace_ n) m = ground arith
is_calm (get_object Kind.job n) m = ground arith
is_calm (get_object Kind.pod n) m = refl
is_calm (get_object Kind.daemon_set n) m = ground arith
is_calm (get_object (Kind.custom gvk) n) m = ground arith
is_calm (create_object Kind.cluster_config o) m = refl
is_calm (create_object Kind.config_map o) m = refl
is_calm (create_object Kind.namespace_ o) m = refl
is_calm (create_object Kind.job o) m = refl
is_calm (create_object Kind.pod o) m = refl
is_calm (create_object Kind.daemon_set o) m = refl
is_calm (create_object (Kind.custom gvk) o) m = refl
is_calm (update_object Kind.cluster_config o) m = refl
is_calm (update_object Kind.config_map o) m = refl
is_calm (update_object Kind.namespace_ o) m = refl
is_calm (update_object Kind.job o) m = refl
is_calm (update_object Kind.pod o) m = refl
is_calm (update_object Kind.daemon_set o) m = refl
is_calm (update_object (Kind.custom gvk) o) m = refl
is_calm (delete_object k n) m = refl
is_calm (patch_object gvk n p) m = refl
is_calm list_nodes m = refl
is_calm (list_pods a b) m = refl
is_calm (list_custom gvk) m = refl
is_calm (pod_logs a b c) m = refl
is_calm (stat_file p) m = ground arith
is_calm (read_file p) m = ground arith
is_calm (write_file p t) m = refl
is_calm (mkdir_all p) m = refl
is_calm (rename_file a b) m = ground arith
is_calm (chmod_file p perm) m = refl
is_calm (http_get url) m = ground arith

pub found_config_map :
    (n : NamespacedName) (o : Option ConfigMap) (cm : ConfigMap)
    → config_map_named n o ≡ ok cm
    → (o ≡ some cm) × (config_map_key cm ≡ n)
found_config_map n none cm h = cc
found_config_map n (some c) cm h =
    ground (arith, h, eq_iff c.name n.name, eq_iff c.namespace_ n.namespace_)

pub missing_config_map :
    (n : NamespacedName) (o : Option ConfigMap) (e : Error)
    → config_map_named n o ≡ err e
    → is_not_found e ≡ true
    → o ≡ none
missing_config_map n none e h missing = refl
missing_config_map n (some c) e h missing = ground (arith, h, missing)

found_doc :
    (n : NamespacedName) (o : Option Doc) (d : Doc)
    → doc_named n o ≡ ok d
    → (o ≡ some d) × (d.name ≡ n.name) × (d.namespace_ ≡ n.namespace_)
found_doc n none d h = cc
found_doc n (some c) d h = ground (arith, h, eq_iff c.name n.name, eq_iff c.namespace_ n.namespace_)

met_once : (r : Result Bool) → once r ≡ ok tt → r ≡ ok true
met_once (ok true) h = refl
met_once (ok false) h = cc
met_once (err e) h = cc
met_once (panic m) h = cc

unfoldable pub config_map_store : IsConfigMapStore memory
unfolding answer
config_map_store = record {
  stored = λ m n. m.config_maps n;
  current = λ m n. Unit;
  get-named = λ n cm m h. (found_config_map n (m.config_maps n) cm h).1;
  get-ok = λ n cm m fresh h. (found_config_map n (m.config_maps n) cm h).0;
  get-not_found = λ n e m fresh h missing. missing_config_map n (m.config_maps n) e h missing;
  stored-get = λ n n' m. refl;
  stored-create =
      λ cm m done. ground (arith, eq_iff cm.name cm.name, eq_iff cm.namespace_ cm.namespace_);
  stored-update =
      λ cm m done. ground (arith, eq_iff cm.name cm.name, eq_iff cm.namespace_ cm.namespace_);
  current-left = λ q n m leaves fresh. tt;
  current-clock = λ n m fresh. tt;
  current-elapse = λ seconds n m fresh. tt;
}

pub apart : IsApart memory file_system config_map_store
unfolding answer file_system
apart = record {
  stored-read = λ p n m. refl;
  content-get = λ n p m. refl;
  content-create = λ cm p m. refl;
  content-update = λ cm p m. refl;
}

pub polling : IsPolling memory
polling = record {
  keeps = λ P interval timeout immediate condition waits k. record { at = λ s h. k.at s h };
  met = λ P interval timeout immediate condition s waits k h done.
      (s, h, λ i. (met_once (condition s).0 done i, (condition s).1));
}

pub has_emulation : HasField memory kubevirt_gvk kubevirt_name use_emulation_path
unfolding answer
has_emulation = record {
  field = λ m. setting (m.customs "KubeVirt" kubevirt_name);
  get-field = λ obj m h.
      let (held, name, ns) = found_doc kubevirt_name (m.customs "KubeVirt" kubevirt_name) obj h in
      (rw held, name, ns);
  field-get = λ m. refl;
  field-update = λ obj m name ns done.
      ground (arith, name, ns, eq_iff obj.name "kubevirt", eq_iff obj.namespace_ "kubevirt");
  nested_bool-set = λ value obj updated h. ground (arith, h);
}
  where
    setting : Option Doc → Result (Option Bool)
    setting none = ok none
    setting (some d) = ok d.emulation
