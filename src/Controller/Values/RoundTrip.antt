-- ===== src/Controller/Values/RoundTrip.antt =====
-- Values that were saved are read back.
use k4all_operator.Base.{String, ◌≡◌, refl, ◌∙◌, subst, some, [], ◌∷◌, arith, eq_iff, inl, inr}
use k4all_operator.Base.Dict.{text_at, text_at-insert, lookup, insert}
use k4all_operator.Base.Effect.{ok, handle, Result-cases}
use k4all_operator.Base.Triple.{bind-ok}
use k4all_operator.Controller.ConfigSyncer.{made}
use k4all_operator.Controller.Values.{decode_values, get_values, store_values, save_values}
use k4all_operator.World.{Env, Values, perform}
use k4all_operator.World.Codec.{IsCodec, SameValues}
use k4all_operator.World.ConfigMaps.{IsConfigMapStore}
use k4all_operator.World.Objects.{NamespacedName, ConfigMap, Kind}
use k4all_operator.World.Requests.{Sys, get_object}

ok-injective_values : (a b : Values) → ok a ≡ ok b → a ≡ b
ok-injective_values a b h = cc

module _ (E : Env) (J : IsCodec E) (M : IsConfigMapStore E) (key : NamespacedName) where
  -- The ConfigMap is stored with this text of the values.
  abbrev Holds : String → Sys E.State E.Unstructured → Type 0
  Holds text s =
      (cm : ConfigMap) × (M.stored s.state key ≡ some cm)
      × (text_at "values.json" (made cm.entries) ≡ text)

  abbrev created : String → ConfigMap
  created text = record {
    name = key.name;
    namespace_ = key.namespace_;
    entries = some (("values.json", text) ∷ []);
  }

  alone : (text : String) → text_at "values.json" (("values.json", text) ∷ []) ≡ text
  unfolding text_at lookup
  alone text = refl

  store_values-Holds :
      (text : String) (s : Sys E.State E.Unstructured)
      → M.current s.state key
      → (store_values E key text s).0 ≡ ok tt
      → Holds text (store_values E key text s).1
  unfolding store_values handle perform
  store_values-Holds text s fresh done =
      elim (Result-cases (perform E (get_object Kind.config_map key) s).0) [
        | inl (cm, got) ↦ (
          record cm { entries = some (insert "values.json" text (made cm.entries)) },
          ground (
            arith,
            got,
            done,
            M.get-named key cm s.state got,
            M.stored-update
                (record cm { entries = some (insert "values.json" text (made cm.entries)) })
                (perform E (get_object Kind.config_map key) s).1.state,
          ),
          text_at-insert "values.json" text (made cm.entries),
        )
        | inr (inl (e, got)) ↦ (
          created text,
          ground (
            arith,
            got,
            done,
            M.stored-create (created text) (perform E (get_object Kind.config_map key) s).1.state,
          ),
          alone text,
        )
        | inr (inr (m, got)) ↦ ground (arith, got, done)
      ]

  get_values-Holds :
      (text : String) (values : Values) (s : Sys E.State E.Unstructured)
      → M.current s.state key
      → Holds text s
      → E.marshal_values values ≡ ok text
      → (read : Values) → (get_values E key s).0 ≡ ok read
      → SameValues read values
  unfolding get_values handle perform decode_values
  get_values-Holds text values s fresh (cm, stored, holds) encoded read got =
      let (w, decoded, same) = J.unmarshal_values-marshal_values values text encoded in
      elim (Result-cases (perform E (get_object Kind.config_map key) s).0) [
        | inl (found, answer) ↦
            let one : ok w ≡ ok read = ground (
              arith,
              answer,
              got,
              stored,
              holds,
              M.get-ok key found s.state fresh answer,
              decoded,
              J.marshal_values-ne values text encoded,
              eq_iff text "",
            ) in
            subst (λ r. SameValues r values) (ok-injective_values w read one) same
        | inr (inl (e, answer)) ↦
            let lost : ⊥ =
              ground (arith, answer, got, stored, M.get-not_found key e s.state fresh answer) in
            absurd lost
        | inr (inr (m, answer)) ↦ let lost : ⊥ = ground (arith, answer, got) in absurd lost
      ]

  -- Let values be saved without an error, from a state where the client's cache is up to date with
  -- the ConfigMap. In any state with the same stored ConfigMap, where the cache is up to date
  -- with it again, what is read without an error is the same map: under each key it has the value
  -- that was saved, or none where none was.
  pub get_values-save_values :
      (values read : Values) (s u : Sys E.State E.Unstructured)
      → M.current s.state key
      → (save_values E key values s).0 ≡ ok tt
      → M.stored u.state key ≡ M.stored (save_values E key values s).1.state key
      → M.current u.state key
      → (get_values E key u).0 ≡ ok read
      → SameValues read values
  unfolding save_values
  get_values-save_values values read s u fresh saved kept fresh' got =
      let (text, encoded, stored, at_) = bind-ok _ _ s tt saved in
      let (cm, found, holds) = subst (Holds text) at_ (store_values-Holds text s fresh stored) in
      get_values-Holds text values u fresh' (cm, kept ∙ found, holds) encoded read got
