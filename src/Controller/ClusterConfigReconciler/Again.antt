-- ===== src/Controller/ClusterConfigReconciler/Again.antt =====
-- What the reconciliation of an unchanged resource does once it is in the file and in the ConfigMap.
use k4all_operator.Base.{
  String, ◌<>◌, ◌≡◌, refl, ◌∙◌, sym, subst, some, false, inl, inr, arith, Option, List,
}
use k4all_operator.Base.Dict.{text_at}
use k4all_operator.Base.Effect.{ok, Result-cases, handle}
use k4all_operator.Config.Atomic.{write_cluster_config_to_file_written}
use k4all_operator.Config.Files.{write_cluster_config_to_file}
use k4all_operator.Config.Writer.{map_from_cluster_config}
use k4all_operator.Controller.Annotations.{finished}
use k4all_operator.Controller.ClusterConfigReconciler.{
  Reconciler, sync_from_file, sync_config_map, ensure_operator_namespace, to_file, synchronize,
  reconcile,
}
use k4all_operator.Controller.ClusterConfigReconciler.Copied.{
  sync_config_map-state, reconcile-Published,
}
use k4all_operator.Controller.ClusterConfigReconciler.Steps.{namespace-Since, write-Since}
use k4all_operator.Controller.ConfigSyncer.{Syncer, made, config_map_key}
use k4all_operator.Controller.ConfigSyncer.Idempotent.{sync_config_reads}
use k4all_operator.V1alpha1.{ClusterConfig}
use k4all_operator.World.{Env, perform}
use k4all_operator.World.Codec.{IsCodec}
use k4all_operator.World.ConfigMaps.{IsConfigMapStore, IsApart, IsSeparate, Leaves}
use k4all_operator.World.Emits.{
  Origin, Since, perform-Since, Emitted, Emitted-trans, Emitted-weaken, here, IsRead,
}
use k4all_operator.World.FileSystem.{IsFileSystem}
use k4all_operator.World.Objects.{NamespacedName, ConfigMap, Kind}
use k4all_operator.World.Requests.{Request, Event, Sys, get_object}

-- Reads, the creation of a namespace, and the replacement of the configuration file by way of its
-- temporary file.
abbrev pub OnlyFile : String → {U : Type 0} → Request U → Type 0
OnlyFile path (Request.get_object _ _) = Unit
OnlyFile path Request.list_nodes = Unit
OnlyFile path (Request.list_pods _ _) = Unit
OnlyFile path (Request.list_custom _) = Unit
OnlyFile path (Request.pod_logs _ _ _) = Unit
OnlyFile path (Request.stat_file _) = Unit
OnlyFile path (Request.read_file _) = Unit
OnlyFile path (Request.http_get _) = Unit
OnlyFile path (Request.create_object Kind.namespace_ _) = Unit
OnlyFile path (Request.mkdir_all _) = Unit
OnlyFile path (Request.write_file p _) = p ≡ path <> ".tmp"
OnlyFile path (Request.rename_file a b) = (a ≡ path <> ".tmp") × (b ≡ path)
OnlyFile path _ = ⊥

IsRead-OnlyFile : {U : Type 0} (path : String) (q : Request U) → IsRead q → OnlyFile path q
IsRead-OnlyFile path (Request.get_object _ _) h = tt
IsRead-OnlyFile path Request.list_nodes h = tt
IsRead-OnlyFile path (Request.list_pods _ _) h = tt
IsRead-OnlyFile path (Request.list_custom _) h = tt
IsRead-OnlyFile path (Request.pod_logs _ _ _) h = tt
IsRead-OnlyFile path (Request.stat_file _) h = tt
IsRead-OnlyFile path (Request.read_file _) h = tt
IsRead-OnlyFile path (Request.http_get _) h = tt
IsRead-OnlyFile path _ h = absurd h

OnlyFile-Leaves :
    {U : Type 0} (path : String) (n : NamespacedName) (q : Request U) → OnlyFile path q → Leaves n q
OnlyFile-Leaves path n (Request.get_object _ _) h = tt
OnlyFile-Leaves path n Request.list_nodes h = tt
OnlyFile-Leaves path n (Request.list_pods _ _) h = tt
OnlyFile-Leaves path n (Request.list_custom _) h = tt
OnlyFile-Leaves path n (Request.pod_logs _ _ _) h = tt
OnlyFile-Leaves path n (Request.stat_file _) h = tt
OnlyFile-Leaves path n (Request.read_file _) h = tt
OnlyFile-Leaves path n (Request.http_get _) h = tt
OnlyFile-Leaves path n (Request.create_object Kind.namespace_ _) h = tt
OnlyFile-Leaves path n (Request.mkdir_all _) h = tt
OnlyFile-Leaves path n (Request.write_file _ _) h = tt
OnlyFile-Leaves path n (Request.rename_file _ _) h = tt
OnlyFile-Leaves path n _ h = absurd h

-- The ConfigMap stays as it is.
abbrev untouched :
    (E : Env) (M : IsConfigMapStore E) (B : IsSeparate E M) (path : String) (key : NamespacedName)
    (held : Option ConfigMap)
    → List (Event E.Unstructured)
    → Origin E (OnlyFile path)
untouched E M B path key held trace = record {
  trace = trace;
  holds = λ s. (M.stored s.state key ≡ held) × M.current s.state key;
  kept = λ q s h k. (
    B.stored-left q key s.state (OnlyFile-Leaves path key q h) ∙ k.0,
    M.current-left q key s.state (OnlyFile-Leaves path key q h) k.1,
  );
  kept_clock = λ s k. (B.stored-clock key s.state ∙ k.0, M.current-clock key s.state k.1);
  kept_elapse = λ n s k. (B.stored-elapse n key s.state ∙ k.0, M.current-elapse n key s.state k.1);
}

module _ (E : Env) (F : IsFileSystem E) (J : IsCodec E) (M : IsConfigMapStore E) (A : IsApart E F M)
    (B : IsSeparate E M) (r : Reconciler) (syncer : Syncer) (has : r.config_syncer ≡ some syncer)
    (same_file : syncer.config_path ≡ r.config_file_path) where
  abbrev path : String
  path = r.config_file_path

  abbrev IsStored : ConfigMap → Sys E.State E.Unstructured → Type 0
  IsStored cm s = M.stored s.state (config_map_key E syncer) ≡ some cm

  module _ (cc : ClusterConfig) (text : String) (cm : ConfigMap)
      (encoded : E.marshal_indent (map_from_cluster_config cc.spec) ≡ ok text)
      (holds : text_at "config.json" (made cm.entries) ≡ text)
      (old : List (Event E.Unstructured)) where
    abbrev start : Origin E (OnlyFile path)
    start = untouched E M B path (config_map_key E syncer) (some cm) old

    abbrev Kept : Sys E.State E.Unstructured → Type 0
    Kept = Since (OnlyFile path) start

    sync_config_map-OnlyFile :
        (s : Sys E.State E.Unstructured)
        → Kept s
        → F.content s.state path ≡ some text
        → Emitted (OnlyFile path) old (sync_config_map E r s).1.trace
    sync_config_map-OnlyFile s (calls, (stored, fresh)) held =
        rw (sync_config_map-state E F J M A r syncer has same_file s) (
          Emitted-trans calls (
            Emitted-weaken (IsRead-OnlyFile path) (
              sync_config_reads E F M A syncer text text (map_from_cluster_config cc.spec)
                (J.unmarshal-marshal_indent (map_from_cluster_config cc.spec) text encoded) encoded
                s fresh (rw same_file held) (cm, stored, holds))))

    to_file-OnlyFile :
        (s : Sys E.State E.Unstructured)
        → Kept s
        → Emitted (OnlyFile path) old (to_file E r cc s).1.trace
    unfolding to_file handle
    to_file-OnlyFile s kept =
        let write = write_cluster_config_to_file E cc path in
        let kept' =
          (write-Since E (OnlyFile path) start cc path (λ _. tt) (λ _. refl) (refl, refl)).at s
            kept in
        elim (Result-cases (write s).0) [
          | inl (_, got) ↦
              let (text', encoded', held) =
                write_cluster_config_to_file_written E F cc path s got in
              let same : to_file E r cc s ≡ sync_config_map E r (write s).1 = ground (arith, got) in
              let one : some text' ≡ some text = ground (arith, encoded, encoded') in
              subst (λ u. Emitted (OnlyFile path) old u.1.trace) (sym same)
                (sync_config_map-OnlyFile (write s).1 kept' (held ∙ one))
          | inr (inl (e, got)) ↦ rw got kept'.0
          | inr (inr (m, got)) ↦ rw got kept'.0
        ]

    reconcile-OnlyFile :
        (req : NamespacedName) (s : Sys E.State E.Unstructured)
        → (perform E (get_object Kind.cluster_config req) s).0 ≡ ok cc
        → sync_from_file cc ≡ false
        → Kept s
        → Emitted (OnlyFile path) old (reconcile E r req s).1.trace
    unfolding reconcile synchronize handle
    reconcile-OnlyFile req s got direction kept =
        let read = (perform E (get_object Kind.cluster_config req) s).1 in
        let kept' =
          (perform-Since E (OnlyFile path) start (get_object Kind.cluster_config req) tt).at s
            kept in
        let kept'' =
          (namespace-Since E (OnlyFile path) start (λ _. tt) (λ _. tt) r).at read kept' in
        elim (Result-cases (ensure_operator_namespace E r read).0) [
          | inl (_, ready) ↦
              let later = (ensure_operator_namespace E r read).1 in
              let same : reconcile E r req s ≡ to_file E r cc later =
                ground (arith, got, direction, ready) in
              subst (λ u. Emitted (OnlyFile path) old u.1.trace) (sym same)
                (to_file-OnlyFile later kept'')
          | inr (inl (e, failed)) ↦ rw (got, failed) kept''.0
          | inr (inr (m, failed)) ↦ rw (got, failed) kept''.0
        ]

  -- Let a resource that is to be written to the file be read, and its reconciliation start with the
  -- client's cache up to date with the ConfigMap and end without an error or a retry. From any
  -- state with the same stored ConfigMap, where the cache is up to date with it again and the same
  -- resource is read, a reconciliation writes neither the ConfigMap nor the resource, however it
  -- ends: it calls nothing but reads, the creation of a namespace, and the replacement of the
  -- configuration file by way of its temporary file.
  pub reconcile_again :
      (req : NamespacedName) (cc : ClusterConfig) (s u : Sys E.State E.Unstructured)
      → (perform E (get_object Kind.cluster_config req) s).0 ≡ ok cc
      → sync_from_file cc ≡ false
      → M.current s.state (config_map_key E syncer)
      → (reconcile E r req s).0 ≡ ok finished
      → M.stored u.state (config_map_key E syncer)
        ≡ M.stored (reconcile E r req s).1.state (config_map_key E syncer)
      → M.current u.state (config_map_key E syncer)
      → (perform E (get_object Kind.cluster_config req) u).0 ≡ ok cc
      → Emitted (OnlyFile r.config_file_path) u.trace (reconcile E r req u).1.trace
  reconcile_again req cc s u got direction fresh done same fresh' again =
      let (text, encoded, cm, stored, holds) =
        reconcile-Published E F J M A r syncer has same_file req cc s got direction fresh done in
      reconcile-OnlyFile cc text cm encoded holds u.trace req u again direction
        (here, (same ∙ stored, fresh'))
