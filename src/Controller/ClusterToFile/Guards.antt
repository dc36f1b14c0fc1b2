-- ===== src/Controller/ClusterToFile/Guards.antt =====
-- When `SyncK8sToConfigFile` leaves the file alone, and what it writes otherwise.
use k4all_operator.Base.{String, ◌≡◌, subst, Option, some, true, false, arith, inl, inr}
use k4all_operator.Base.Effect.{ok, Result-cases, handle, ◌>>=◌, wrapping}
use k4all_operator.Base.Int.{leb_ℤ}
use k4all_operator.Base.Triple.{bind-ok}
use k4all_operator.Config.Files.{write_config_file}
use k4all_operator.Config.Types.{Config}
use k4all_operator.Config.Writer.{convert_to_config}
use k4all_operator.Controller.Annotations.{last_update_test}
use k4all_operator.Controller.ClusterToFile.{
  is_empty_k8s_config, is_empty_config_struct, prepare, write_out, sync_k8s_to_config_file,
}
use k4all_operator.V1alpha1.{ClusterConfig}
use k4all_operator.World.{Env, perform}
use k4all_operator.World.FileSystem.{IsFileSystem}
use k4all_operator.World.Requests.{FileInfo, Sys, stat_file}

module _ (E : Env) (resource : ClusterConfig) (path : String) (s : Sys E.State E.Unstructured) where
  -- A file that is at least as new as the last update of the resource is left alone: the
  -- synchronisation returns nil after the look at the file.
  pub sync_k8s_to_config_file_newer :
      (info : FileInfo)
      → (perform E (stat_file path) s).0 ≡ ok info
      → is_empty_k8s_config resource.spec ≡ false
      → last_update_test (λ time. leb_ℤ time info.mod_time) resource.annotations ≡ true
      → sync_k8s_to_config_file E resource path s ≡ (ok tt, (perform E (stat_file path) s).1)
  unfolding sync_k8s_to_config_file handle
  sync_k8s_to_config_file_newer info found nonempty newer = ground (arith, found, nonempty, newer)

  module _ (F : IsFileSystem E) where
    -- the file holds this configuration
    abbrev pub Holds : Config → Sys E.State E.Unstructured → Type 0
    Holds config s =
        (text : String) × (E.marshal_indent config ≡ ok text) × (F.content s.state path ≡ some text)

    write_config_file-Holds :
        (config : Config) (s : Sys E.State E.Unstructured)
        → (write_config_file E path config s).0 ≡ ok tt
        → Holds config (write_config_file E path config s).1
    unfolding write_config_file wrapping ◌>>=◌ handle perform
    write_config_file-Holds config s done = elim (Result-cases (E.marshal_indent config)) [
      | inl (text, encoded) ↦
          (text, encoded, ground (arith, encoded, done, F.content-write path text s.state))
      | inr (inl (e, encoded)) ↦ ground (arith, encoded, done)
      | inr (inr (m, encoded)) ↦ ground (arith, encoded, done)
    ]

    wrapped-Holds :
        (config : Config) (s : Sys E.State E.Unstructured)
        → (wrapping "failed to write config file" (write_config_file E path config) s).0 ≡ ok tt
        → Holds config
            (wrapping "failed to write config file" (write_config_file E path config) s).1
    unfolding wrapping handle
    wrapped-Holds config s done = elim (Result-cases (write_config_file E path config s).0) [
      | inl (_, got) ↦
          let kept : (write_config_file E path config s).1
              ≡ (wrapping "failed to write config file" (write_config_file E path config) s).1 =
            ground (arith, got) in
          subst (Holds config) kept (write_config_file-Holds config s got)
      | inr (inl (e, got)) ↦ ground (arith, got, done)
      | inr (inr (m, got)) ↦ ground (arith, got, done)
    ]

    write_out-Holds :
        (info : Option FileInfo) (s : Sys E.State E.Unstructured)
        → is_empty_config_struct E (convert_to_config resource.spec) ≡ false
        → (write_out E resource path info s).0 ≡ ok tt
        → Holds (convert_to_config resource.spec) (write_out E resource path info s).1
    unfolding write_out
    write_out-Holds info s nonempty done = rw nonempty (
        let (_, _, done1, at_) = bind-ok (prepare E path info) _ s tt (rw nonempty at done) in
        subst (Holds (convert_to_config resource.spec)) at_ (wrapped-Holds _ _ done1))

    -- Where the file is older than the last update of the resource, or the resource has no time of
    -- an update, and neither the spec nor its configuration counts as empty: if the
    -- synchronisation returns nil, the file holds the encoded configuration of the resource.
    pub sync_k8s_to_config_file-Holds :
        (info : FileInfo)
        → (perform E (stat_file path) s).0 ≡ ok info
        → is_empty_k8s_config resource.spec ≡ false
        → is_empty_config_struct E (convert_to_config resource.spec) ≡ false
        → last_update_test (λ time. leb_ℤ time info.mod_time) resource.annotations ≡ false
        → (sync_k8s_to_config_file E resource path s).0 ≡ ok tt
        → Holds (convert_to_config resource.spec) (sync_k8s_to_config_file E resource path s).1
    unfolding sync_k8s_to_config_file handle
    sync_k8s_to_config_file-Holds info found present nonempty older done =
        let s1 = (perform E (stat_file path) s).1 in
        let kept : (write_out E resource path (some info) s1).1
            ≡ (sync_k8s_to_config_file E resource path s).1 =
          ground (arith, found, present, older) in
        subst (Holds (convert_to_config resource.spec)) kept
          (write_out-Holds (some info) s1 nonempty (ground (arith, found, present, older, done)))
