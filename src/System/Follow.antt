-- ===== src/System/Follow.antt =====
-- From the resource to the features: what the reconcilers of the features read after a reconciliation
-- of the resource.
use mathlib.Core.Option.{some-injective}
use k4all_operator.Argocd.Reconcile.{reconcile_config, reconcile_config_map, reconcile_argocd}
use k4all_operator.Argocd.Types.{Callbacks}
use k4all_operator.Base.{ℕ, String, ◌≡◌, refl, sym, subst, ◌∙◌, some, false, arith, eq_iff}
use k4all_operator.Base.Dict.{lookup, lookup-text_at, text_at}
use k4all_operator.Base.Effect.{ok, handle}
use k4all_operator.Config.Types.{Config}
use k4all_operator.Config.Writer.{map_from_cluster_config}
use k4all_operator.Controller.Annotations.{finished}
use k4all_operator.Controller.ClusterConfigReconciler.{
  Reconciler, sync_from_file, reconcile, setup_with_manager,
}
use k4all_operator.Controller.ClusterConfigReconciler.Copied.{Published, reconcile-Published}
use k4all_operator.Controller.ConfigSyncer.{made}
use k4all_operator.Main.{
  Flags, config_map_name, config_map_ns, config_syncer, cluster_config_reconciler,
  argocd_reconciler, virt_reconciler,
}
use k4all_operator.V1alpha1.{ClusterConfig}
use k4all_operator.Virt.Reconcile
use k4all_operator.Virt.Reconcile.{with_config, with_config_map}
use k4all_operator.World.{Env, perform}
use k4all_operator.World.Codec.{IsCodec}
use k4all_operator.World.ConfigMaps.{IsConfigMapStore, IsApart}
use k4all_operator.World.FileSystem.{IsFileSystem}
use k4all_operator.World.Objects.{NamespacedName, ConfigMap, Kind}
use k4all_operator.World.Requests.{Sys, get_object}

-- The ConfigMap that the syncer writes and the features read.
abbrev pub shared_key : NamespacedName
shared_key = record { name = config_map_name; namespace_ = config_map_ns }

abbrev pub registered : Flags → Reconciler
registered flags = setup_with_manager (cluster_config_reconciler flags)

module _ (E : Env) (F : IsFileSystem E) (J : IsCodec E) (M : IsConfigMapStore E) (A : IsApart E F M)
    (flags : Flags) where
  has_syncer : (registered flags).config_syncer ≡ some config_syncer
  unfolding setup_with_manager cluster_config_reconciler
  has_syncer = refl

  same_file : config_syncer.config_path ≡ (registered flags).config_file_path
  unfolding setup_with_manager cluster_config_reconciler
  same_file = refl

  -- what a read of the ConfigMap gives while it is stored as it was published
  read-Published :
      (config : Config) (s t : Sys E.State E.Unstructured) (cm : ConfigMap)
      → Published E F J M A (registered flags) config_syncer has_syncer same_file config s
      → M.stored t.state shared_key ≡ M.stored s.state shared_key
      → M.current t.state shared_key
      → (E.respond (get_object Kind.config_map shared_key) t.state).0 ≡ ok cm
      → (text : String) × (lookup "config.json" (made cm.entries) ≡ some text)
        × (E.unmarshal text ≡ ok config)
  read-Published config s t cm (text, encoded, old, stored, holds) kept fresh answer =
      let found = M.get-ok shared_key cm t.state fresh answer in
      let one = some-injective old cm (sym stored ∙ sym kept ∙ found) in
      let holds' = subst (λ c. text_at "config.json" (made c.entries) ≡ text) one holds in
      (
        text,
        lookup-text_at "config.json" text (made cm.entries) holds'
            (J.marshal_indent-ne config text encoded),
        J.unmarshal-marshal_indent config text encoded,
      )

  argocd_reads :
      (config : Config) (callbacks : Callbacks) (text : String) (cm : ConfigMap)
      (t : Sys E.State E.Unstructured)
      → (perform E (get_object Kind.config_map shared_key) t).0 ≡ ok cm
      → lookup "config.json" (made cm.entries) ≡ some text
      → E.unmarshal text ≡ ok config
      → reconcile_argocd E (argocd_reconciler flags) callbacks shared_key t
        ≡ reconcile_config E
            (argocd_reconciler flags)
            callbacks
            config
            (perform E (get_object Kind.config_map shared_key) t).1
  unfolding reconcile_argocd reconcile_config_map argocd_reconciler handle
  argocd_reads config callbacks text cm t answer entry parsed = ground (
    arith,
    answer,
    entry,
    parsed,
    eq_iff config_map_name config_map_name,
    eq_iff config_map_ns config_map_ns,
  )

  virt_reads :
      (fuel ticks : ℕ) (config : Config) (text : String) (cm : ConfigMap)
      (t : Sys E.State E.Unstructured)
      → (perform E (get_object Kind.config_map shared_key) t).0 ≡ ok cm
      → lookup "config.json" (made cm.entries) ≡ some text
      → E.unmarshal text ≡ ok config
      → Reconcile.reconcile E (virt_reconciler flags) fuel ticks shared_key t
        ≡ with_config E
            (virt_reconciler flags)
            fuel
            ticks
            config
            (perform E (get_object Kind.config_map shared_key) t).1
  unfolding Reconcile.reconcile with_config_map virt_reconciler handle
  virt_reads fuel ticks config text cm t answer entry parsed = ground (
    arith,
    answer,
    entry,
    parsed,
    eq_iff config_map_name config_map_name,
    eq_iff config_map_ns config_map_ns,
  )

  -- If a resource that is to be written to the file is read, and its reconciliation starts with the
  -- client's cache up to date with the ConfigMap and ends without an error or a retry, then in any
  -- state with the same stored ConfigMap, where the cache is up to date with it and the read
  -- of it is answered, the reconcilers of Argo CD and of the virtualisation feature act on the
  -- configuration of that resource.
  pub features_follow :
      (req : NamespacedName) (cc : ClusterConfig) (s t : Sys E.State E.Unstructured)
      (cm : ConfigMap) (callbacks : Callbacks) (fuel ticks : ℕ)
      → (perform E (get_object Kind.cluster_config req) s).0 ≡ ok cc
      → sync_from_file cc ≡ false
      → M.current s.state shared_key
      → (reconcile E (registered flags) req s).0 ≡ ok finished
      → M.stored t.state shared_key
        ≡ M.stored (reconcile E (registered flags) req s).1.state shared_key
      → M.current t.state shared_key
      → (perform E (get_object Kind.config_map shared_key) t).0 ≡ ok cm
      → (reconcile_argocd E (argocd_reconciler flags) callbacks shared_key t
          ≡ reconcile_config E
              (argocd_reconciler flags)
              callbacks
              (map_from_cluster_config cc.spec)
              (perform E (get_object Kind.config_map shared_key) t).1)
        × (Reconcile.reconcile E (virt_reconciler flags) fuel ticks shared_key t
            ≡ with_config E
                (virt_reconciler flags)
                fuel
                ticks
                (map_from_cluster_config cc.spec)
                (perform E (get_object Kind.config_map shared_key) t).1)
  unfolding perform
  features_follow req cc s t cm callbacks fuel ticks got direction fresh done kept fresh' answer =
      let config : Config = map_from_cluster_config cc.spec in
      let published =
        reconcile-Published E F J M A (registered flags) config_syncer has_syncer same_file req cc s
          got direction fresh done in
      let (text, entry, parsed) =
        read-Published config (reconcile E (registered flags) req s).1 t cm published kept fresh'
          answer in
      (
        argocd_reads config callbacks text cm t answer entry parsed,
        virt_reads fuel ticks config text cm t answer entry parsed,
      )
