-- ===== src/Controller/ClusterConfigReconciler/Whole.antt =====
-- What the configuration file holds after a reconciliation, and after a run of the syncer.
use k4all_operator.Base.{◌≡◌, refl, ◌∙◌, String, Option, some, inl, inr, ◌⊎◌}
use k4all_operator.Base.Effect.{ok, Result-cases}
use k4all_operator.Base.Keeps.{Keeps, Keeps-pure, Keeps-if, Keeps-handle}
use k4all_operator.Config.Atomic.{
  write_cluster_config_to_file_written, write_cluster_config_to_file_unwritten,
}
use k4all_operator.Config.Files.{write_cluster_config_to_file}
use k4all_operator.Config.Writer.{map_from_cluster_config}
use k4all_operator.Controller.ClusterConfigReconciler.{
  Reconciler, sync_from_file, sync_config_map, ensure_operator_namespace, from_file, to_file,
  synchronize, reconcile,
}
use k4all_operator.Controller.ClusterConfigReconciler.Directions.{TakesFile, from_file-Takes}
use k4all_operator.Controller.ClusterConfigReconciler.Steps.{namespace-Since, sync_config_map-Since}
use k4all_operator.Controller.ConfigSyncer.{sync_config}
use k4all_operator.V1alpha1.{ClusterConfig, ClusterConfigSpec}
use k4all_operator.World.{Env, Program, perform}
use k4all_operator.World.FileSystem.{IsFileSystem, IsHost, LeavesFiles}
use k4all_operator.World.Objects.{NamespacedName, Kind}
use k4all_operator.World.Requests.{Sys, get_object}
use k4all_operator.World.Content.{Content, Keeps-Content, perform-Content}
use k4all_operator.Controller.ClusterConfigReconciler.Steps.{sync_config-Since}
use k4all_operator.Controller.ConfigSyncer.{Syncer}
use k4all_operator.World.Requests.{Request}

TakesFile-LeavesFiles : {U : Type 0} (q : Request U) → TakesFile q → LeavesFiles q
TakesFile-LeavesFiles (Request.get_object _ _) h = tt
TakesFile-LeavesFiles (Request.read_file _) h = tt
TakesFile-LeavesFiles (Request.create_object Kind.namespace_ _) h = tt
TakesFile-LeavesFiles (Request.create_object Kind.config_map _) h = tt
TakesFile-LeavesFiles (Request.update_object Kind.config_map _) h = tt
TakesFile-LeavesFiles (Request.update_object Kind.cluster_config _) h = tt
TakesFile-LeavesFiles _ h = absurd h

module _ (E : Env) (F : IsFileSystem E) (H : IsHost E F) (path : String) where
  pub sync_config-Content :
      (held : Option String) (syncer : Syncer)
      → Keeps (Content E F H path held) (sync_config E syncer)
  sync_config-Content held syncer =
      Keeps-Content E F H path LeavesFiles held _ (λ q h. h)
        λ old. sync_config-Since E LeavesFiles (λ _. tt) (λ _ _. tt) (λ _. tt) (λ _. tt) old syncer

module _ (E : Env) (F : IsFileSystem E) (H : IsHost E F) (path : String)
    (first : Option String) where
  -- the file holds what it held first, or the encoded configuration of some spec
  abbrev pub IsKnown : Sys E.State E.Unstructured → Type 0
  IsKnown s =
      Content E F H path first s
      ⊎ ((spec : ClusterConfigSpec) × (text : String) × (E.marshal_indent
              (map_from_cluster_config spec)
            ≡ ok text)
          × Content E F H path (some text) s)

  pub IsKnown-same :
      (s t : Sys E.State E.Unstructured)
      → F.content t.state path ≡ F.content s.state path
      → IsKnown s
      → IsKnown t
  IsKnown-same s t same (inl h) = inl (same ∙ h)
  IsKnown-same s t same (inr (spec, text, encoded, h)) = inr (spec, text, encoded, same ∙ h)

  -- what keeps any content keeps a known one
  pub Keeps-IsKnown :
      {A : Type 0} (m : Program E A)
      → ((held : Option String) → Keeps (Content E F H path held) m)
      → Keeps IsKnown m
  Keeps-IsKnown m k = record {
    at = λ s h. IsKnown-same s (m s).1 ((k (F.content s.state path)).at s refl) h;
  }

  write-IsKnown :
      (resource : ClusterConfig) → Keeps IsKnown (write_cluster_config_to_file E resource path)
  write-IsKnown resource = record {
    at = λ s h.
        let last = (write_cluster_config_to_file E resource path s).1 in
        elim (Result-cases (write_cluster_config_to_file E resource path s).0) [
          | inl (_, done) ↦
              let (text, encoded, held) =
                write_cluster_config_to_file_written E F resource path s done in
              inr (resource.spec, text, encoded, held)
          | inr (inl (e, failed)) ↦
              IsKnown-same s last
                (write_cluster_config_to_file_unwritten E F resource path s
                  (λ done. cc (failed, done)))
                h
          | inr (inr (m, failed)) ↦
              IsKnown-same s last
                (write_cluster_config_to_file_unwritten E F resource path s
                  (λ done. cc (failed, done)))
                h
        ];
  }

module _ (E : Env) (F : IsFileSystem E) (H : IsHost E F) (r : Reconciler)
    (first : Option String) where
  abbrev Known : Sys E.State E.Unstructured → Type 0
  Known = IsKnown E F H r.config_file_path first

  known :
      {A : Type 0} (m : Program E A)
      → ((held : Option String) → Keeps (Content E F H r.config_file_path held) m)
      → Keeps Known m
  known m = Keeps-IsKnown E F H r.config_file_path first m

  map-Known : Keeps Known (sync_config_map E r)
  map-Known = known _ λ held.
      Keeps-Content E F H r.config_file_path LeavesFiles held _ (λ q h. h)
        λ old. sync_config_map-Since E LeavesFiles (λ _. tt) (λ _ _. tt) (λ _. tt) (λ _. tt) old r

  to_file-Known : (cc : ClusterConfig) → Keeps Known (to_file E r cc)
  unfolding to_file
  to_file-Known cc =
      Keeps-handle _ _ _ (write-IsKnown E F H r.config_file_path first cc) (λ e. Keeps-pure _)
        (λ _. map-Known)

  from_file-Known : (cc : ClusterConfig) → Keeps Known (from_file E r cc)
  from_file-Known cc = known _ λ held.
      Keeps-Content E F H r.config_file_path TakesFile held _ TakesFile-LeavesFiles
        λ old. from_file-Takes E r old cc

  namespace-Known : Keeps Known (ensure_operator_namespace E r)
  namespace-Known = known _ λ held.
      Keeps-Content E F H r.config_file_path LeavesFiles held _ (λ q h. h)
        λ old. namespace-Since E LeavesFiles old (λ _. tt) (λ _. tt) r

  read-Known :
      (req : NamespacedName)
      → Keeps {A = ClusterConfig} Known (perform E (get_object Kind.cluster_config req))
  read-Known req =
      known _ λ held.
        perform-Content E F H r.config_file_path held (get_object Kind.cluster_config req) tt

  pub reconcile-Known : (req : NamespacedName) → Keeps Known (reconcile E r req)
  unfolding reconcile synchronize
  reconcile-Known req =
      Keeps-handle _ _ _ (read-Known req) (λ e. Keeps-pure _)
        λ cc.
          Keeps-handle _ _ _ namespace-Known (λ e. Keeps-pure _)
            λ _. Keeps-if (sync_from_file cc) _ _ (λ _. from_file-Known cc) (λ _. to_file-Known cc)
