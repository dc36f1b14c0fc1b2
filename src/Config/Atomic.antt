-- ===== src/Config/Atomic.antt =====
-- The write of the configuration file replaces it as a whole or leaves it alone.
use Prim.Native.String.{len}
use text.Mathlib.TextPositions.{len-append}
use k4all_operator.Base.{String, ◌<>◌, ◌≡◌, ◌≢◌, ap, refl, ◌∙◌, arith}
use k4all_operator.Base.{Option, some}
use k4all_operator.Base.Effect.{ok}
use k4all_operator.Base.Triple.{
  Triple, Triple-bind-lift, Triple-wrapping, Triple-bind, ended_of, returned, failed,
}
use k4all_operator.Config.Files.{write_cluster_config_to_file}
use k4all_operator.Config.Writer.{map_from_cluster_config}
use k4all_operator.V1alpha1.{ClusterConfig}
use k4all_operator.World.{Env, perform}
use k4all_operator.World.Requests.{Sys, mkdir_all, write_file, rename_file}
use k4all_operator.World.FileSystem.{IsFileSystem}

temp-ne : (path : String) → path <> ".tmp" ≢ path
temp-ne path h = omega (arith, ap len h, len-append path ".tmp")

module _ (E : Env) (F : IsFileSystem E) (path : String) (old : Option String) where
  abbrev S : Type 0
  S = Sys E.State E.Unstructured

  abbrev Old : S → Type 0
  Old s = F.content s.state path ≡ old

  -- the temporary file is written, and the file is as before
  abbrev Staged : String → S → Type 0
  Staged text s = Old s × (F.content s.state (path <> ".tmp") ≡ some text)

  abbrev New : String → S → Type 0
  New text s = F.content s.state path ≡ some text

  mkdir-Old : (d : String) → Triple Old (perform E (mkdir_all d)) (λ _. Old) Old
  unfolding perform
  mkdir-Old d = record {
    at = λ s h.
        let kept = F.content-mkdir d path s.state ∙ h in
        ended_of (λ _. Old) Old _ _ (λ _ _. kept) (λ _. kept);
  }

  write-Staged :
      (text : String)
      → Triple Old (perform E (write_file (path <> ".tmp") text)) (λ _. Staged text) Old
  unfolding perform
  write-Staged text = record {
    at = λ s h.
        let kept = F.content-write_ne (path <> ".tmp") text path s.state (temp-ne path) ∙ h in
        ended_of (λ _. Staged text) Old _ _
          (λ _ e. (kept, F.content-write (path <> ".tmp") text s.state e)) (λ _. kept);
  }

  rename-New :
      (text : String)
      → Triple (Staged text) (perform E (rename_file (path <> ".tmp") path)) (λ _. New text) Old
  unfolding perform
  rename-New text = record {
    at = λ s h.
        ended_of (λ _. New text) Old _ _
          (λ _ e. F.content-rename (path <> ".tmp") path s.state e ∙ h.1)
          (λ no_. F.content-rename_failed (path <> ".tmp") path path s.state (no_ tt) ∙ h.0);
  }

  -- the file holds the configuration of the resource
  abbrev Written : ClusterConfig → S → Type 0
  Written cc s =
      (text : String) × (E.marshal_indent (map_from_cluster_config cc.spec) ≡ ok text) × New text s

  write-Written :
      (cc : ClusterConfig)
      → Triple Old (write_cluster_config_to_file E cc path) (λ _. Written cc) Old
  unfolding write_cluster_config_to_file
  write-Written cc =
      Triple-bind-lift _ _ _ (λ _ h. h)
        λ text e. Triple-bind _ _ (Triple-wrapping _ _ (mkdir-Old _)) λ _.
          Triple-bind _ _ (Triple-wrapping _ _ (write-Staged text)) λ _.
            Triple-bind _ _ (Triple-wrapping _ _ (rename-New text))
              λ _. record { at = λ s h. (text, e, h) }

module _ (E : Env) (F : IsFileSystem E) (cc : ClusterConfig) (path : String) where
  -- If writing a resource to the configuration file returns nil, the file holds the encoded
  -- configuration of the resource.
  pub write_cluster_config_to_file_written :
      (s : Sys E.State E.Unstructured)
      → (write_cluster_config_to_file E cc path s).0 ≡ ok tt
      → (text : String) × (E.marshal_indent (map_from_cluster_config cc.spec) ≡ ok text)
        × (F.content (write_cluster_config_to_file E cc path s).1.state path ≡ some text)
  write_cluster_config_to_file_written s done =
      returned (write-Written E F path (F.content s.state path) cc) s refl tt done

  -- If it does not return nil, at whatever step it failed, the file has the content that it had.
  pub write_cluster_config_to_file_unwritten :
      (s : Sys E.State E.Unstructured)
      → (write_cluster_config_to_file E cc path s).0 ≢ ok tt
      → F.content (write_cluster_config_to_file E cc path s).1.state path ≡ F.content s.state path
  write_cluster_config_to_file_unwritten s undone =
      failed (write-Written E F path (F.content s.state path) cc) s refl (λ _. undone)
