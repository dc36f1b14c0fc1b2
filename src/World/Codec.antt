-- ===== src/World/Codec.antt =====
-- What the program relies on of `encoding/json`: what was encoded is decoded. A map is encoded with
-- its keys sorted, so that a decoded map is the same map, and its list of entries may be another.
use k4all_operator.Base.{String, ◌≡◌, ◌≢◌, none, some}
use k4all_operator.Base.Dict.{lookup}
use k4all_operator.Base.Effect.{ok}
use k4all_operator.Config.Types.{Config}
use k4all_operator.World.{Env, Values}

-- The same map: each key has the same value, or none, in both.
abbrev pub SameValues : Values → Values → Type 0
SameValues none none = Unit
SameValues none (some w) = ⊥
SameValues (some v) none = ⊥
SameValues (some v) (some w) = (k : String) → lookup k v ≡ lookup k w

pub record IsCodec (E : Env) : Type 0 where
  pub unmarshal-marshal_indent :
      (c : Config) (t : String) → E.marshal_indent c ≡ ok t → E.unmarshal t ≡ ok c
  pub unmarshal_values-marshal_values :
      (v : Values) (t : String)
      → E.marshal_values v ≡ ok t
      → (w : Values) × (E.unmarshal_values t ≡ ok w) × SameValues w v
  -- no JSON text is empty
  pub marshal_indent-ne : (c : Config) (t : String) → E.marshal_indent c ≡ ok t → t ≢ ""
  pub marshal_values-ne : (v : Values) (t : String) → E.marshal_values v ≡ ok t → t ≢ ""
