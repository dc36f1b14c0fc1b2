-- ===== src/Downloader/Apply.antt =====
-- Applying a manifest: every document of the stream is created or updated.
pub mod Stream
pub mod Applied
use k4all_operator.Base.{ℕ, zero, suc, String, ◌<>◌, not, nat_eq, if◌then◌else◌, List, [], ◌∷◌}
use k4all_operator.Base.Decimal.{format_int}
use k4all_operator.Base.Effect.{
  Error, other, wrap, is_not_found, pure, fail, crash, handle, ◌>>=◌, ◌>>◌, wrapping,
}
use k4all_operator.Base.Int.{pos}
use k4all_operator.World.{Env, Program, perform, document, eof, malformed}
use k4all_operator.World.Objects.{NamespacedName, Kind}
use k4all_operator.World.Requests.{http_get, get_object, create_object, update_object}

-- The loops over a decoder run on fuel, and end like this when it is used up.
abbrev pub out_of_fuel : String
out_of_fuel = "out of fuel"

abbrev status_from : ℕ → String → Error
status_from code url =
    other ("unexpected status code: " <> format_int (pos code) <> " from URL: " <> url)

module _ (E : Env) where
  abbrev pub key_of : E.Unstructured → NamespacedName
  key_of obj = record { name = E.name_of obj; namespace_ = E.namespace_of obj }

  -- The kind of the object's own client calls.
  abbrev pub kind_of : E.Unstructured → Kind
  kind_of obj = Kind.custom (E.gvk_of obj)

  unfoldable pub create_or_update_resource : E.Unstructured → Program E Unit
  create_or_update_resource obj =
      handle (perform E (get_object (Kind.custom (E.gvk_of obj)) (key_of obj)))
        (λ e.
          if is_not_found e
          then perform E (create_object (Kind.custom (E.gvk_of obj)) obj)
          else fail e)
        (λ current. perform E (
          update_object (Kind.custom (E.gvk_of obj))
            (E.set_resource_version (E.resource_version_of current) obj)))

  -- One document: an empty one, a separator, is skipped.
  unfoldable pub apply_document : E.Unstructured → Program E Unit
  unfolding create_or_update_resource
  apply_document obj =
      if not (E.has_content obj)
      then pure tt
      else wrapping ("failed to apply resource " <> (E.gvk_of obj).kind <> "/" <> E.name_of obj)
          (create_or_update_resource obj)

  -- The loop from the n-th call of the decoder on.
  unfoldable pub apply_documents : ℕ → E.Body → ℕ → Program E Unit
  apply_documents zero body n = crash out_of_fuel
  apply_documents (suc fuel) body n =
      let rest = apply_documents fuel body (suc n) in
      elim (E.decode_yaml body n) [
        | document obj ↦ do apply_document obj; rest
        | eof ↦ pure tt
        | malformed m ↦ fail (wrap "error decoding YAML" (other m))
      ]

  unfoldable pub apply_yaml_from_url : ℕ → String → Program E Unit
  apply_yaml_from_url fuel url = do
    resp ← wrapping ("failed to download YAML from " <> url) (perform E (http_get url))
    if not (nat_eq resp.status_code 200)
        then fail (status_from resp.status_code url)
        else apply_documents fuel resp.body 0
