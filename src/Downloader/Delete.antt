-- ===== src/Downloader/Delete.antt =====
-- Deleting what a manifest describes: what fails is logged and skipped.
pub mod Stuck
pub mod Requests
use k4all_operator.Base.{ℕ, zero, suc, String, ◌<>◌, ◌==◌, ◌||◌, Bool, not, nat_eq, if◌then◌else◌}
use k4all_operator.Base.Decimal.{format_int}
use k4all_operator.Base.Effect.{other, pure, fail, crash, handle, ◌>>=◌, ◌>>◌, wrapping, ignore}
use k4all_operator.Base.Int.{pos}
use k4all_operator.Downloader.Apply.{out_of_fuel, key_of}
use k4all_operator.World.{Env, Program, Decoded, perform, document, eof, malformed}
use k4all_operator.World.Objects.{Kind}
use k4all_operator.World.Requests.{http_get, delete_object}

module _ (E : Env) where
  -- A document without an API version or a kind is skipped.
  unfoldable pub is_skipped : E.Unstructured → Bool
  is_skipped obj = E.api_version_of obj == "" || (E.gvk_of obj).kind == ""

  -- One document. An error is logged, and so is a success.
  unfoldable pub delete_document : E.Unstructured → Program E Unit
  unfolding is_skipped
  delete_document obj =
      if is_skipped obj
      then pure tt
      else ignore (perform E (delete_object (Kind.custom (E.gvk_of obj)) (key_of E obj)))

  -- One call of the decoder, before the rest of the loop; what cannot be decoded is skipped too.
  unfoldable pub delete_decoded : Program E Unit → Decoded E.Unstructured → Program E Unit
  delete_decoded rest (document obj) = do delete_document obj; rest
  delete_decoded rest eof = pure tt
  delete_decoded rest (malformed m) = rest

  -- The loop from the n-th call of the decoder on.
  unfoldable pub delete_documents : ℕ → E.Body → ℕ → Program E Unit
  unfolding delete_decoded
  delete_documents zero body n = crash out_of_fuel
  delete_documents (suc fuel) body n =
      delete_decoded (delete_documents fuel body (suc n)) (E.decode_yaml body n)

  unfoldable pub delete_yaml_from_url : ℕ → String → Program E Unit
  delete_yaml_from_url fuel url = do
    resp ← wrapping ("failed to get YAML from " <> url) (perform E (http_get url))
    let reason : String = "failed to get YAML from " <> url <> ": status code "
    if not (nat_eq resp.status_code 200)
        then fail (other (reason <> format_int (pos resp.status_code)))
        else delete_documents fuel resp.body 0
