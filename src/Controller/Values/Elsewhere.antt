-- ===== src/Controller/Values/Elsewhere.antt =====
-- Saving values leaves every other ConfigMap as it is.
use k4all_operator.Base.{◌≡◌, ◌≢◌, ◌∙◌, String, some, [], ◌∷◌, inl, inr, Bool-cases}
use k4all_operator.Base.Dict.{insert}
use k4all_operator.Base.Effect.{is_not_found, handle, ◌>>=◌, Result-cases}
use k4all_operator.Controller.ConfigSyncer.{made}
use k4all_operator.Controller.Values.{store_values, save_values}
use k4all_operator.World.{Env, Values, perform}
use k4all_operator.World.ConfigMaps.{IsConfigMapStore, IsSeparate}
use k4all_operator.World.Objects.{NamespacedName, ConfigMap, Kind}
use k4all_operator.World.Requests.{Sys, get_object, create_object, update_object}

module _ (E : Env) (M : IsConfigMapStore E) (B : IsSeparate E M) (key elsewhere : NamespacedName)
    (ne : key ≢ elsewhere) where
  store_values-elsewhere :
      (text : String) (s : Sys E.State E.Unstructured)
      → M.stored (store_values E key text s).1.state elsewhere ≡ M.stored s.state elsewhere
  unfolding store_values handle perform
  store_values-elsewhere text s =
      let seen = M.stored-get key elsewhere s.state in
      elim (Result-cases (E.respond (get_object Kind.config_map key) s.state).0) [
        | inl (cm, got) ↦
            let new = record cm { entries = some (insert "values.json" text (made cm.entries)) } in
            let named = M.get-named key cm s.state got in
            rw got
              (B.stored-left (update_object Kind.config_map new) elsewhere _ (rw named ne) ∙ seen)
        | inr (inl (e, got)) ↦ elim (Bool-cases (is_not_found e)) [
          | inl missing ↦
              let new : ConfigMap = record {
                name = key.name;
                namespace_ = key.namespace_;
                entries = some (("values.json", text) ∷ []);
              } in
              rw (got, missing)
                (B.stored-left (create_object Kind.config_map new) elsewhere _ ne ∙ seen)
          | inr other ↦ rw (got, other) seen
        ]
        | inr (inr (m, got)) ↦ rw got seen
      ]

  -- whether or not the values could be saved
  pub save_values-elsewhere :
      (values : Values) (s : Sys E.State E.Unstructured)
      → M.stored (save_values E key values s).1.state elsewhere ≡ M.stored s.state elsewhere
  unfolding save_values ◌>>=◌ handle
  save_values-elsewhere values s = elim (Result-cases (E.marshal_values values)) [
    | inl (text, encoded) ↦ rw encoded (store_values-elsewhere text s)
    | inr (inl (e, encoded)) ↦ rw encoded
    | inr (inr (m, encoded)) ↦ rw encoded
  ]
