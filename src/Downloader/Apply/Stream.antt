-- ===== src/Downloader/Apply/Stream.antt =====
-- What a decoder reads until the end of its input, and the loop over it without fuel.
use k4all_operator.Base.{ℕ, zero, suc, ◌<◌, ◌≡◌, List, [], ◌∷◌, map, length, arith}
use k4all_operator.Base.Effect.{pure, ◌>>◌}
use k4all_operator.Downloader.Apply.{apply_document, apply_documents}
use k4all_operator.World.{Env, Program, Decoded, document, eof}

module _ (E : Env) where
  -- The n-th and the later calls of the decoder give these, and then io.EOF.
  abbrev pub IsStream : E.Body → ℕ → List (Decoded E.Unstructured) → Type 0
  IsStream body n [] = E.decode_yaml body n ≡ eof
  IsStream body n (d ∷ ds) = (E.decode_yaml body n ≡ d) × IsStream body (suc n) ds

  -- Each document in turn, up to the first that fails.
  unfoldable pub apply_all : List E.Unstructured → Program E Unit
  apply_all [] = pure tt
  apply_all (obj ∷ objs) = do apply_document E obj; apply_all objs

  -- If the stream is well-formed up to its end, fuel for one step more than it has documents is
  -- enough, and the loop applies each document in turn up to the first that fails.
  pub apply_documents-apply_all :
      (body : E.Body) (objs : List E.Unstructured) (n fuel : ℕ)
      → IsStream body n (map document objs)
      → length objs < fuel
      → apply_documents E fuel body n ≡ apply_all objs
  unfolding apply_documents apply_all
  apply_documents-apply_all body [] n zero stream enough = absurd (omega (arith, enough))
  apply_documents-apply_all body (obj ∷ objs) n zero stream enough = absurd (omega (arith, enough))
  apply_documents-apply_all body [] n (suc fuel) stream enough =
      rw (stream, apply_documents, apply_all)
  apply_documents-apply_all body (obj ∷ objs) n (suc fuel) (first, others) enough = rw (
    first,
    apply_documents,
    apply_all,
    apply_documents-apply_all body objs (suc n) fuel others (omega (arith, enough)),
  )
