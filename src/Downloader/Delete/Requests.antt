-- ===== src/Downloader/Delete/Requests.antt =====
-- What is deleted.
use k4all_operator.Base.{ℕ, zero, suc, ◌<◌, ◌≡◌, List, [], ◌∷◌, map, length, arith, if◌then◌else◌}
use k4all_operator.Base.Effect.{ok, handle, ◌>>=◌, ignore}
use k4all_operator.Downloader.Apply.{key_of}
use k4all_operator.Downloader.Apply.Stream.{IsStream}
use k4all_operator.Downloader.Delete.{is_skipped, delete_document, delete_decoded, delete_documents}
use k4all_operator.World.{Env, IsCalm, Decoded, document, eof, malformed, perform}
use k4all_operator.World.Objects.{Kind}
use k4all_operator.World.Requests.{Request, Event, Sys, delete_object}

module _ (E : Env) where
  abbrev pub requests : List (Event E.Unstructured) → List (Request E.Unstructured)
  requests trace = map (λ e. e.request) trace

  -- The calls, the last first: a deletion for each document with an API version and a kind.
  unfoldable pub deletions :
      List (Decoded E.Unstructured) → List (Request E.Unstructured) → List (Request E.Unstructured)
  deletions [] old = old
  deletions (document obj ∷ ds) old = deletions ds (
      if is_skipped E obj
      then old
      else delete_object (Kind.custom (E.gvk_of obj)) (key_of E obj) ∷ old)
  deletions (eof ∷ ds) old = old
  deletions (malformed m ∷ ds) old = deletions ds old

  module _ (calm : IsCalm E) where
    delete_document-deletions :
        (obj : E.Unstructured) (s : Sys E.State E.Unstructured)
        → ((delete_document E obj s).0 ≡ ok tt)
          × (requests (delete_document E obj s).1.trace ≡ (
              if is_skipped E obj
              then requests s.trace
              else delete_object (Kind.custom (E.gvk_of obj)) (key_of E obj) ∷ requests s.trace))
    unfolding delete_document ignore handle perform
    delete_document-deletions obj s =
        ground (arith, calm (delete_object (Kind.custom (E.gvk_of obj)) (key_of E obj)) s.state)

    -- If the decoder reaches the end of its input, whatever documents it cannot decode before, and
    -- no call panics, then fuel for one step more is enough for the loop to return nil. It calls
    -- nothing but one deletion for each document with an API version and a kind, in their order,
    -- also after deletions that failed.
    pub delete_documents-deletions :
        (body : E.Body) (ds : List (Decoded E.Unstructured)) (n fuel : ℕ)
        → IsStream E body n ds
        → length ds < fuel
        → (s : Sys E.State E.Unstructured)
        → ((delete_documents E fuel body n s).0 ≡ ok tt)
          × (requests (delete_documents E fuel body n s).1.trace ≡ deletions ds (requests s.trace))
    unfolding delete_documents delete_decoded deletions ◌>>=◌ handle
    delete_documents-deletions body ds n zero stream enough s = absurd (omega (arith, enough))
    delete_documents-deletions body [] n (suc fuel) stream enough s = ground (arith, stream)
    delete_documents-deletions body (document obj ∷ ds) n (suc fuel) (first, others) enough s =
        ground (
          arith,
          first,
          delete_document-deletions obj s,
          delete_documents-deletions body ds (suc n) fuel others (omega (arith, enough))
              (delete_document E obj s).1,
        )
    delete_documents-deletions body (eof ∷ ds) n (suc fuel) (first, others) enough s =
        ground (arith, first)
    delete_documents-deletions body (malformed m ∷ ds) n (suc fuel) (first, others) enough s =
        ground (
          arith,
          first,
          delete_documents-deletions body ds (suc n) fuel others (omega (arith, enough)) s,
        )
