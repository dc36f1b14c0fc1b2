-- ===== src/Downloader/Apply/Applied.antt =====
-- What holds of the cluster's resources after a manifest was applied without an error.
use k4all_operator.Base.{
  ℕ, ◌<◌, ◌≡◌, List, [], ◌∷◌, map, length, ◌++◌, true, false, String, arith, ◌⊎◌, inr,
}
use k4all_operator.Base.Effect.{ok, handle, ◌>>=◌, wrapping}
use k4all_operator.Base.Keeps.{Keeps, Keeps-bind, keeps_rules}
use k4all_operator.Downloader.Apply.{create_or_update_resource, apply_document, apply_yaml_from_url}
use k4all_operator.Downloader.Apply.Stream.{IsStream, apply_all, apply_documents-apply_all}
use k4all_operator.World.{Env, document, perform}
use k4all_operator.World.Emits.{
  Emitted, here, more, Since, since_rules, Anything, Origin, from_trace,
}
use k4all_operator.World.Objects.{Kind}
use k4all_operator.World.Requests.{Request, Event, Sys, create_object, update_object, http_get}

module _ (E : Env) (obj : E.Unstructured) where
  -- A call that succeeded and sent the object: its creation, or its update at some resource version.
  abbrev pub Sent : Event E.Unstructured → Type 0
  Sent e =
      (e.failed ≡ false)
      × ((e.request ≡ create_object (Kind.custom (E.gvk_of obj)) obj)
          ⊎ ((version : String) × (e.request
                ≡ update_object (Kind.custom (E.gvk_of obj)) (E.set_resource_version version obj))))

  abbrev pub Applied : List (Event E.Unstructured) → Type 0
  Applied [] = ⊥
  Applied (e ∷ trace) = Sent e ⊎ Applied trace

  Emitted-Applied :
      {P : Request E.Unstructured → Type 0} {old new : List (Event E.Unstructured)}
      → Emitted P old new
      → Applied old
      → Applied new
  Emitted-Applied here h = h
  Emitted-Applied (more e allowed later) h = inr (Emitted-Applied later h)

  create_or_update_resource-Applied :
      (s : Sys E.State E.Unstructured)
      → (create_or_update_resource E obj s).0 ≡ ok tt
      → Applied (create_or_update_resource E obj s).1.trace
  unfolding create_or_update_resource handle perform
  create_or_update_resource-Applied s done = ground arith

  apply_document-Applied :
      (s : Sys E.State E.Unstructured)
      → E.has_content obj ≡ true
      → (apply_document E obj s).0 ≡ ok tt
      → Applied (apply_document E obj s).1.trace
  unfolding apply_document handle wrapping
  apply_document-Applied s content done = ground (arith, create_or_update_resource-Applied s)

module _ (E : Env) where
  apply_document-Emitted :
      (obj : E.Unstructured) (old : Origin E Anything)
      → Keeps (Since Anything old) (apply_document E obj)
  unfolding apply_document create_or_update_resource
  apply_document-Emitted obj old = search (keeps_rules, since_rules) depth 9

  apply_all-Emitted :
      (objs : List E.Unstructured) (old : Origin E Anything)
      → Keeps (Since Anything old) (apply_all E objs)
  unfolding apply_all
  apply_all-Emitted [] old = search keeps_rules
  apply_all-Emitted (obj ∷ objs) old =
      Keeps-bind (apply_document E obj) _ (apply_document-Emitted obj old)
        λ _. apply_all-Emitted objs old

  apply_all-Applied :
      (before : List E.Unstructured) (obj : E.Unstructured) (after : List E.Unstructured)
      (s : Sys E.State E.Unstructured)
      → E.has_content obj ≡ true
      → (apply_all E (before ++ (obj ∷ after)) s).0 ≡ ok tt
      → Applied E obj (apply_all E (before ++ (obj ∷ after)) s).1.trace
  unfolding apply_all ◌>>=◌ handle
  apply_all-Applied [] obj after s content done = ground (
    arith,
    apply_document-Applied E obj s,
    Emitted-Applied E obj (
        ((apply_all-Emitted after (from_trace E Anything (apply_document E obj s).1.trace)).at
          (apply_document E obj s).1 (here, tt)).0),
  )
  apply_all-Applied (first ∷ before) obj after s content done =
      ground (arith, apply_all-Applied before obj after (apply_document E first s).1)

  -- If the manifest can be fetched and its stream is well-formed up to its end, and the application
  -- returns nil with fuel for one step more than there are documents, then each document that is
  -- not empty was sent by a creation or an update that succeeded.
  pub apply_yaml_from_url-Applied :
      (url : String) (s : Sys E.State E.Unstructured) (fuel status : ℕ) (body : E.Body)
      (before : List E.Unstructured) (obj : E.Unstructured) (after : List E.Unstructured)
      → (perform E (http_get url) s).0 ≡ ok (record { status_code = status; body = body })
      → IsStream E body 0 (map document (before ++ (obj ∷ after)))
      → length (before ++ (obj ∷ after)) < fuel
      → E.has_content obj ≡ true
      → (apply_yaml_from_url E fuel url s).0 ≡ ok tt
      → Applied E obj (apply_yaml_from_url E fuel url s).1.trace
  unfolding apply_yaml_from_url ◌>>=◌ handle wrapping
  apply_yaml_from_url-Applied url s fuel status body before obj after got stream enough content
        done =
      ground (
        arith,
        apply_documents-apply_all E body (before ++ (obj ∷ after)) 0 fuel stream enough,
        apply_all-Applied before obj after (perform E (http_get url) s).1,
      )
