-- ===== src/Controller/Values.antt =====
-- GetValues and SaveValues, which virt_controller.go and argocd_controller.go both have: the
-- values of a feature, kept as JSON in a ConfigMap.
pub mod RoundTrip
pub mod Elsewhere
use k4all_operator.Base.{String, ◌==◌, Option, none, some, List, [], ◌∷◌, if◌then◌else◌}
use k4all_operator.Base.Dict.{Dict, insert, text_at}
use k4all_operator.Base.Effect.{Error, is_not_found, pure, fail, lift, handle, ◌>>=◌}
use k4all_operator.Controller.ConfigSyncer.{made}
use k4all_operator.World.{Env, Program, Values, perform}
use k4all_operator.World.Objects.{NamespacedName, ConfigMap, Kind}
use k4all_operator.World.Requests.{get_object, create_object, update_object}

module _ (E : Env) (key : NamespacedName) where
  -- From the ConfigMap read. The data may be nil, where any entry reads as "".
  unfoldable pub decode_values : ConfigMap → Program E Values
  decode_values cm =
      let text = text_at "values.json" (made cm.entries) in
      if text == "" then pure (some []) else lift (E.unmarshal_values text)

  unfoldable pub get_values : Program E Values
  unfolding decode_values
  get_values =
      handle (perform E (get_object Kind.config_map key))
        (λ e. if is_not_found e then pure (some []) else fail e) decode_values

  -- The new ConfigMap, or the one that exists with the entry set.
  unfoldable pub store_values : String → Program E Unit
  store_values text =
      handle (perform E (get_object Kind.config_map key))
        (λ e.
          if is_not_found e
          then perform E (
              create_object Kind.config_map (record {
                name = key.name;
                namespace_ = key.namespace_;
                entries = some (("values.json", text) ∷ []);
              }))
          else fail e)
        (λ cm. perform E (
          update_object Kind.config_map
            (record cm { entries = some (insert "values.json" text (made cm.entries)) })))

  unfoldable pub save_values : Values → Program E Unit
  unfolding store_values
  save_values values = do text ← lift (E.marshal_values values); store_values text
