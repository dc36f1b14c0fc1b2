-- ===== src/Downloader/Content.antt =====
-- Applying a manifest and waiting write no file of the host.
use k4all_operator.Base.{ℕ, zero, suc, String}
use k4all_operator.Base.Effect.{other, wrap, pure, fail, ◌>>◌}
use k4all_operator.Base.Keeps.{
  Keeps, Keeps-pure, Keeps-fail, Keeps-crash, Keeps-bind, Keeps-if, keeps_rules,
}
use k4all_operator.Downloader.Apply.{
  create_or_update_resource, apply_document, apply_documents, apply_yaml_from_url,
}
use k4all_operator.Downloader.Ready.{
  phase_seen, sees_deployed, wait_for_kubevirt_ready, ensure_namespace, patch_resource,
}
use k4all_operator.World.{Env, Program, Decoded, document, eof, malformed}
use k4all_operator.World.Emits.{Origin, Since, since_rules, pause-Since}
use k4all_operator.World.FileSystem.{LeavesFiles}
use k4all_operator.World.Objects.{Gvk}
use k4all_operator.World.Requests.{Sys}

module _ (E : Env) (old : Origin E LeavesFiles) where
  abbrev Leaves : Sys E.State E.Unstructured → Type 0
  Leaves = Since LeavesFiles old

  apply_document-Leaves : (obj : E.Unstructured) → Keeps Leaves (apply_document E obj)
  unfolding apply_document create_or_update_resource
  apply_document-Leaves obj = search (keeps_rules, since_rules) depth 9

  decoded-Leaves :
      (rest : Program E Unit) (d : Decoded E.Unstructured)
      → Keeps Leaves rest
      → Keeps {A = Unit} Leaves (elim d [
        | document obj ↦ do apply_document E obj; rest
        | eof ↦ pure tt
        | malformed m ↦ fail (wrap "error decoding YAML" (other m))
      ])
  decoded-Leaves rest (document obj) k = Keeps-bind _ _ (apply_document-Leaves obj) (λ _. k)
  decoded-Leaves rest eof k = Keeps-pure tt
  decoded-Leaves rest (malformed m) k = Keeps-fail _

  apply_documents-Leaves :
      (fuel : ℕ) (body : E.Body) (n : ℕ) → Keeps Leaves (apply_documents E fuel body n)
  unfolding apply_documents
  apply_documents-Leaves zero body n = Keeps-crash _
  apply_documents-Leaves (suc fuel) body n =
      decoded-Leaves _ (E.decode_yaml body n) (apply_documents-Leaves fuel body (suc n))

  pub apply_yaml-Leaves : (fuel : ℕ) (url : String) → Keeps Leaves (apply_yaml_from_url E fuel url)
  unfolding apply_yaml_from_url
  apply_yaml-Leaves fuel url = search (keeps_rules, since_rules, apply_documents-Leaves) depth 9

  sees_deployed-Leaves : Keeps Leaves (sees_deployed E)
  unfolding sees_deployed phase_seen
  sees_deployed-Leaves = search (keeps_rules, since_rules) depth 9

  pub ready-Leaves : (ticks : ℕ) → Keeps Leaves (wait_for_kubevirt_ready E ticks)
  unfolding wait_for_kubevirt_ready
  ready-Leaves zero = Keeps-fail _
  ready-Leaves (suc ticks) = Keeps-bind _ _ (pause-Since E LeavesFiles old 5) λ _.
      Keeps-bind _ _ sees_deployed-Leaves
        λ ready. Keeps-if ready _ _ (λ _. Keeps-pure tt) (λ _. ready-Leaves ticks)

  pub ensure_namespace-Leaves : (name : String) → Keeps Leaves (ensure_namespace E name)
  unfolding ensure_namespace
  ensure_namespace-Leaves name = search (keeps_rules, since_rules) depth 9

  pub patch-Leaves :
      (gvk : Gvk) (name ns patch : String) → Keeps Leaves (patch_resource E gvk name ns patch)
  unfolding patch_resource
  patch-Leaves gvk name ns patch = search (since_rules)
