-- ===== src/Controller/ClusterConfigReconciler/Copied.antt =====
-- What a reconciliation that writes the file leaves in the ConfigMap.
use k4all_operator.Base.{List, String, ◌≡◌, sym, subst, some, false, inl, inr, arith}
use k4all_operator.Base.Dict.{text_at}
use k4all_operator.Base.Effect.{ok, Result-cases, handle}
use k4all_operator.Config.Atomic.{write_cluster_config_to_file_written}
use k4all_operator.Config.Files.{write_cluster_config_to_file}
use k4all_operator.Config.Types.{Config}
use k4all_operator.Config.Writer.{map_from_cluster_config}
use k4all_operator.Controller.Annotations.{finished}
use k4all_operator.Controller.ClusterConfigReconciler.{
  Reconciler, sync_from_file, sync_config_map, ensure_operator_namespace, to_file, synchronize,
  reconcile,
}
use k4all_operator.Controller.ConfigSyncer.{Syncer, made, config_map_key, sync_config}
use k4all_operator.Controller.ConfigSyncer.Idempotent.{sync_config_copies}
use k4all_operator.V1alpha1.{ClusterConfig}
use k4all_operator.World.{Env, perform}
use k4all_operator.World.Codec.{IsCodec}
use k4all_operator.World.ConfigMaps.{IsConfigMapStore, IsApart, Leaves}
use k4all_operator.World.Emits.{Origin, here, perform-Since}
use k4all_operator.Controller.ClusterConfigReconciler.Steps.{namespace-Since, write-Since}
use k4all_operator.World.FileSystem.{IsFileSystem}
use k4all_operator.World.Objects.{NamespacedName, ConfigMap, Kind}
use k4all_operator.World.Requests.{Event, Sys, get_object}

module _ (E : Env) (F : IsFileSystem E) (J : IsCodec E) (M : IsConfigMapStore E) (A : IsApart E F M)
    (r : Reconciler) (syncer : Syncer) (has : r.config_syncer ≡ some syncer)
    (same_file : syncer.config_path ≡ r.config_file_path) where
  -- the ConfigMap holds the encoded configuration
  abbrev pub Published : Config → Sys E.State E.Unstructured → Type 0
  Published config s =
      (text : String) × (E.marshal_indent config ≡ ok text)
      × (cm : ConfigMap) × (M.stored s.state (config_map_key E syncer) ≡ some cm)
      × (text_at "config.json" (made cm.entries) ≡ text)

  -- the client's cache is up to date with the ConfigMap
  abbrev IsCurrent : Sys E.State E.Unstructured → Type 0
  IsCurrent s = M.current s.state (config_map_key E syncer)

  abbrev fresh_from : List (Event E.Unstructured) → Origin E (Leaves (config_map_key E syncer))
  fresh_from trace = record {
    trace = trace;
    holds = IsCurrent;
    kept = λ q s h k. M.current-left q (config_map_key E syncer) s.state h k;
    kept_clock = λ s k. M.current-clock (config_map_key E syncer) s.state k;
    kept_elapse = λ n s k. M.current-elapse n (config_map_key E syncer) s.state k;
  }

  read-IsCurrent :
      (req : NamespacedName) (s : Sys E.State E.Unstructured)
      → IsCurrent s
      → IsCurrent (perform E (get_object Kind.cluster_config req) s).1
  read-IsCurrent req s fresh =
      ((perform-Since E (Leaves (config_map_key E syncer)) (fresh_from s.trace)
          (get_object Kind.cluster_config req) tt).at
        s (here, fresh)).1

  namespace-IsCurrent :
      (s : Sys E.State E.Unstructured) → IsCurrent s → IsCurrent (ensure_operator_namespace E r s).1
  namespace-IsCurrent s fresh =
      ((namespace-Since E (Leaves (config_map_key E syncer)) (fresh_from s.trace) (λ _. tt)
          (λ _. tt) r).at
        s (here, fresh)).1

  write-IsCurrent :
      (cc : ClusterConfig) (s : Sys E.State E.Unstructured)
      → IsCurrent s
      → IsCurrent (write_cluster_config_to_file E cc r.config_file_path s).1
  write-IsCurrent cc s fresh =
      ((write-Since E (Leaves (config_map_key E syncer)) (fresh_from s.trace) cc r.config_file_path
          (λ _. tt) (λ _. tt) tt).at
        s (here, fresh)).1

  pub sync_config_map-state :
      (s : Sys E.State E.Unstructured) → (sync_config_map E r s).1 ≡ (sync_config E syncer s).1
  unfolding sync_config_map handle
  sync_config_map-state s = elim (Result-cases (sync_config E syncer s).0) [
    | inl (_, got) ↦ ground (arith, has, got)
    | inr (inl (e, got)) ↦ ground (arith, has, got)
    | inr (inr (m, got)) ↦ ground (arith, has, got)
  ]

  sync_config_map-Published :
      (config : Config) (text : String) (s : Sys E.State E.Unstructured)
      → E.marshal_indent config ≡ ok text
      → IsCurrent s
      → F.content s.state r.config_file_path ≡ some text
      → (sync_config_map E r s).0 ≡ ok finished
      → Published config (sync_config_map E r s).1
  unfolding sync_config_map handle
  sync_config_map-Published config text s encoded fresh held done =
      elim (Result-cases (sync_config E syncer s).0) [
        | inl (_, got) ↦
            let (cm, stored, holds) =
              sync_config_copies E F M A syncer text text config
                (J.unmarshal-marshal_indent config text encoded) encoded s fresh (rw same_file held)
                got in
            (
              text,
              encoded,
              cm,
              subst (λ t. M.stored t.state (config_map_key E syncer) ≡ some cm)
                  (sym (sync_config_map-state s)) stored,
              holds,
            )
        | inr (inl (e, got)) ↦ ground (arith, has, got, done)
        | inr (inr (m, got)) ↦ ground (arith, has, got, done)
      ]

  to_file-Published :
      (cc : ClusterConfig) (s : Sys E.State E.Unstructured)
      → IsCurrent s
      → (to_file E r cc s).0 ≡ ok finished
      → Published (map_from_cluster_config cc.spec) (to_file E r cc s).1
  unfolding to_file handle
  to_file-Published cc s fresh done =
      elim (Result-cases (write_cluster_config_to_file E cc r.config_file_path s).0) [
        | inl (_, got) ↦
            let write = write_cluster_config_to_file E cc r.config_file_path in
            let (text, encoded, held) =
              write_cluster_config_to_file_written E F cc r.config_file_path s got in
            let same : to_file E r cc s ≡ sync_config_map E r (write s).1 = ground (arith, got) in
            subst (λ t. Published (map_from_cluster_config cc.spec) t.1) (sym same)
              (sync_config_map-Published _ text (write s).1 encoded (write-IsCurrent cc s fresh)
                held (ground (arith, same, done)))
        | inr (inl (e, got)) ↦ ground (arith, got, done)
        | inr (inr (m, got)) ↦ ground (arith, got, done)
      ]

  -- If a resource that is to be written to the file is read, and its reconciliation starts with the
  -- client's cache up to date with the ConfigMap and ends without an error or a retry, the ConfigMap holds the encoded configuration of the resource.
  pub reconcile-Published :
      (req : NamespacedName) (cc : ClusterConfig) (s : Sys E.State E.Unstructured)
      → (perform E (get_object Kind.cluster_config req) s).0 ≡ ok cc
      → sync_from_file cc ≡ false
      → M.current s.state (config_map_key E syncer)
      → (reconcile E r req s).0 ≡ ok finished
      → Published (map_from_cluster_config cc.spec) (reconcile E r req s).1
  unfolding reconcile synchronize handle
  reconcile-Published req cc s got direction fresh done =
      let read = (perform E (get_object Kind.cluster_config req) s).1 in
      elim (Result-cases (ensure_operator_namespace E r read).0) [
        | inl (_, ready) ↦
            let later = (ensure_operator_namespace E r read).1 in
            let same : reconcile E r req s ≡ to_file E r cc later =
              ground (arith, got, direction, ready) in
            subst (λ t. Published (map_from_cluster_config cc.spec) t.1) (sym same)
              (to_file-Published cc later (namespace-IsCurrent read (read-IsCurrent req s fresh))
                (ground (arith, same, done)))
        | inr (inl (e, failed)) ↦ ground (arith, got, failed, done)
        | inr (inr (m, failed)) ↦ ground (arith, got, failed, done)
      ]
