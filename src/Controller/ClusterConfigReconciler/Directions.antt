-- ===== src/Controller/ClusterConfigReconciler/Directions.antt =====
-- What a reconciliation writes in each direction.
use k4all_operator.Base.{◌<>◌, String, true, false, Option, some, ◌≡◌, refl, arith}
use k4all_operator.Base.Effect.{ok, handle}
use k4all_operator.Base.Keeps.{Keeps, Keeps-pure, Keeps-bind, Keeps-handle, Keeps-if}
use k4all_operator.Base.Decimal.{format_int}
use k4all_operator.Base.Dict.{Dict}
use k4all_operator.Controller.Annotations.{
  file_sync_annotation, annotation, annotation-track, track, Outcome,
}
use k4all_operator.Controller.ClusterConfigReconciler.{
  Reconciler, sync_from_file, sync_config_map, from_file, to_file, synchronize, reconcile,
}
use k4all_operator.Controller.ClusterConfigReconciler.Steps.{
  read_config-Since, sync_config_map-Since, namespace-Since, write-Since,
}
use k4all_operator.V1alpha1.{ClusterConfig}
use k4all_operator.World.{Env, perform}
use k4all_operator.World.Emits.{
  Emitted, here, more, Origin, from_trace, Since, perform-Since, unix_now-Since,
}
use k4all_operator.World.Objects.{NamespacedName, Kind}
use k4all_operator.World.Requests.{Request, Sys, get_object, update_object}

-- Reads, the creation of a namespace, the copy in the ConfigMap, and updates of the resource that
-- mark it as handled, so that the next reconciliation goes to the file.
abbrev pub TakesFile : {U : Type 0} → Request U → Type 0
TakesFile (Request.get_object _ _) = Unit
TakesFile (Request.read_file _) = Unit
TakesFile (Request.create_object Kind.namespace_ _) = Unit
TakesFile (Request.create_object Kind.config_map _) = Unit
TakesFile (Request.update_object Kind.config_map _) = Unit
TakesFile (Request.update_object Kind.cluster_config cc) = sync_from_file cc ≡ false
TakesFile _ = ⊥

-- The same without any write of the resource, and with the replacement of the configuration file
-- by way of its temporary file.
abbrev pub GivesFile : String → {U : Type 0} → Request U → Type 0
GivesFile path (Request.get_object _ _) = Unit
GivesFile path (Request.read_file _) = Unit
GivesFile path (Request.create_object Kind.namespace_ _) = Unit
GivesFile path (Request.create_object Kind.config_map _) = Unit
GivesFile path (Request.update_object Kind.config_map _) = Unit
GivesFile path (Request.mkdir_all _) = Unit
GivesFile path (Request.write_file p _) = p ≡ path <> ".tmp"
GivesFile path (Request.rename_file a b) = (a ≡ path <> ".tmp") × (b ≡ path)
GivesFile path _ = ⊥

tracked :
    (now : String) (a : Option (Dict String))
    → annotation file_sync_annotation (some (track "false" now a)) ≡ some "false"
tracked now a = rw annotation-track

handled :
    (resource : ClusterConfig)
    → annotation file_sync_annotation resource.annotations ≡ some "false"
    → sync_from_file resource ≡ false
unfolding sync_from_file
handled resource is_tracked = rw (is_tracked, sync_from_file)

module _ (E : Env) (r : Reconciler) (old : Origin E TakesFile) where
  abbrev Takes : Sys E.State E.Unstructured → Type 0
  Takes = Since TakesFile old

  map-Takes : Keeps {A = Outcome} Takes (sync_config_map E r)
  map-Takes = sync_config_map-Since E TakesFile (λ _. tt) (λ _ _. tt) (λ _. tt) (λ _. tt) old r

  update-Takes :
      (resource : ClusterConfig)
      → annotation file_sync_annotation resource.annotations ≡ some "false"
      → Keeps {A = Unit} Takes (perform E (update_object Kind.cluster_config resource))
  update-Takes resource is_tracked =
      perform-Since E TakesFile old (update_object Kind.cluster_config resource)
        (handled resource is_tracked)

  pub from_file-Takes :
      (resource : ClusterConfig) → Keeps {A = Outcome} Takes (from_file E r resource)
  unfolding from_file
  from_file-Takes resource =
      Keeps-handle _ _ _
        (read_config-Since E TakesFile (λ _. tt) (λ _ _. tt) (λ _. tt) (λ _. tt) old _ _)
        (λ e. Keeps-pure _)
        λ updated. Keeps-bind _ _ (unix_now-Since E TakesFile old) λ time.
          let marked = some (track "false" (format_int time) updated.annotations) in
          Keeps-handle _ _ _
            (update-Takes (record updated { annotations = marked })
              (tracked (format_int time) updated.annotations))
            (λ e. Keeps-pure _) (λ _. map-Takes)

  synchronize-Takes :
      (resource : ClusterConfig)
      → sync_from_file resource ≡ true
      → Keeps Takes (synchronize E r resource)
  unfolding synchronize
  synchronize-Takes resource direction =
      Keeps-handle _ _ _ (namespace-Since E TakesFile old (λ _. tt) (λ _. tt) r) (λ e. Keeps-pure _)
        λ _.
          Keeps-if (sync_from_file resource) _ _ (λ _. from_file-Takes resource)
            (λ other. absurd (ground (arith, direction, other)))

module _ (E : Env) (r : Reconciler) (old : Origin E (GivesFile r.config_file_path)) where
  abbrev Gives : Sys E.State E.Unstructured → Type 0
  Gives = Since (GivesFile r.config_file_path) old

  map-Gives : Keeps {A = Outcome} Gives (sync_config_map E r)
  map-Gives =
      sync_config_map-Since E (GivesFile r.config_file_path) (λ _. tt) (λ _ _. tt) (λ _. tt)
        (λ _. tt) old r

  to_file-Gives : (resource : ClusterConfig) → Keeps {A = Outcome} Gives (to_file E r resource)
  unfolding to_file
  to_file-Gives resource =
      Keeps-handle _ _ _
        (write-Since E (GivesFile r.config_file_path) old resource r.config_file_path (λ _. tt)
          (λ _. refl) (refl, refl))
        (λ e. Keeps-pure _) (λ _. map-Gives)

  synchronize-Gives :
      (resource : ClusterConfig)
      → sync_from_file resource ≡ false
      → Keeps Gives (synchronize E r resource)
  unfolding synchronize
  synchronize-Gives resource direction =
      Keeps-handle _ _ _
        (namespace-Since E (GivesFile r.config_file_path) old (λ _. tt) (λ _. tt) r)
        (λ e. Keeps-pure _)
        λ _.
          Keeps-if (sync_from_file resource) _ _
            (λ other. absurd (ground (arith, direction, other))) (λ _. to_file-Gives resource)

module _ (E : Env) (r : Reconciler) (req : NamespacedName) (s : Sys E.State E.Unstructured)
    (resource : ClusterConfig)
    (got : (perform E (get_object Kind.cluster_config req) s).0 ≡ ok resource) where
  after_read :
      reconcile E r req s
      ≡ synchronize E r resource (perform E (get_object Kind.cluster_config req) s).1
  unfolding reconcile handle
  after_read = ground (arith, got)

  -- If the resource is to be taken from the file, a reconciliation never writes the host's files.
  -- It calls nothing but reads, the creation of a namespace, the creation or the update of a
  -- ConfigMap, and updates of the resource after which the next reconciliation goes to the file.
  pub reconcile-TakesFile :
      sync_from_file resource ≡ true → Emitted TakesFile s.trace (reconcile E r req s).1.trace
  unfolding perform
  reconcile-TakesFile direction = rw after_read (
      ((synchronize-Takes E r (from_trace E TakesFile s.trace) resource direction).at _
        (more _ tt here, tt)).0)

  -- If the resource is to be written to the file, a reconciliation never writes the resource. It
  -- calls nothing but reads, the creation of a namespace, the creation or the update of a
  -- ConfigMap, and the replacement of the configuration file by way of its temporary file.
  pub reconcile-GivesFile :
      sync_from_file resource ≡ false
      → Emitted (GivesFile r.config_file_path) s.trace (reconcile E r req s).1.trace
  unfolding perform
  reconcile-GivesFile direction = rw after_read (
      ((synchronize-Gives E r (from_trace E (GivesFile r.config_file_path) s.trace) resource
          direction).at
        _ (more _ tt here, tt)).0)
