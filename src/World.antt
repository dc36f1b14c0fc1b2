-- ===== src/World.antt =====
-- The outside world as a parameter: what it answers to each call, and the codecs and object
-- accessors of the libraries that the program uses. Nothing is assumed of it here.
pub mod Objects
pub mod Requests
pub mod Emits
pub mod Polling
pub mod FileSystem
pub mod Content
pub mod Codec
pub mod ConfigMaps
pub mod KubeVirt
use k4all_operator.Base.{◌≡◌, ℕ, String, Bool, true, false, Option, List, ◌∷◌}
use k4all_operator.Base.Dict.{Dict}
use k4all_operator.Base.Effect.{Result, ok, err, panic, Action}
use k4all_operator.Base.Int.{ℤ}
use k4all_operator.Config.Types.{Config}
use Objects.{Gvk}
use Requests.{Request, Response, Sys}

-- The values of a `map[string]interface{}` that the program stores, and any other JSON value by
-- its text.
pub data Json : Type 0 where
  bool : Bool → Json
  text : String → Json
  raw : String → Json

-- A map that may be nil: JSON's `null` is read as nil.
abbrev pub Values : Type 0
Values = Option (Dict Json)

-- One call of a YAML decoder: a document, `io.EOF`, or another error.
pub data Decoded (U : Type 0) : Type 0 where
  document : U → Decoded U
  eof : Decoded U
  malformed : String → Decoded U

pub record Env : Type 1 where
  pub State : Type 0
  pub Unstructured : Type 0
  pub Body : Type 0
  -- every call that leaves the program; the world may change by itself at any call
  pub respond : (r : Request Unstructured) → State → Result (Response Unstructured Body r) × State
  -- time.Now().Unix(), and time.Sleep in seconds
  pub clock : State → ℤ × State
  pub elapse : ℕ → State → State
  -- wait.PollUntilContextTimeout: interval and timeout in seconds, `immediate`, the condition
  pub poll :
      ℕ → ℕ → Bool → Action (Sys State Unstructured) Bool → Action (Sys State Unstructured) Unit
  -- apimachinery's unstructured objects
  pub new_object : Gvk → String → String → Unstructured
  pub gvk_of : Unstructured → Gvk
  pub api_version_of : Unstructured → String
  pub name_of : Unstructured → String
  pub namespace_of : Unstructured → String
  pub has_content : Unstructured → Bool
  pub resource_version_of : Unstructured → String
  pub set_resource_version : String → Unstructured → Unstructured
  pub clear_finalizers : Unstructured → Unstructured
  pub nested_string : Unstructured → List String → Result (Option String)
  pub nested_int64 : Unstructured → List String → Result (Option ℤ)
  pub nested_bool : Unstructured → List String → Result (Option Bool)
  pub set_nested_bool : Bool → List String → Unstructured → Result Unstructured
  -- bodies of HTTP responses: io.ReadAll, the n-th call of a YAML decoder, a release's tag
  pub read_all : Body → Result String
  pub decode_yaml : Body → ℕ → Decoded Unstructured
  pub decode_tag_name : Body → Result String
  -- filepath.Dir
  pub dir : String → String
  -- encoding/json
  pub marshal_indent : Config → Result String
  pub marshal : Config → Result String
  pub unmarshal : String → Result Config
  pub marshal_values : Values → Result String
  pub unmarshal_values : String → Result Values

abbrev pub Program : Env → Type 0 → Type 0
Program E A = Action (Sys E.State E.Unstructured) A

abbrev pub has_failed {ℓ} : {A : Type ℓ} → Result A → Bool
has_failed (ok a) = false
has_failed (err e) = true
has_failed (panic m) = true

abbrev pub has_panicked {ℓ} : {A : Type ℓ} → Result A → Bool
has_panicked (panic m) = true
has_panicked _ = false

-- The libraries return their errors.
abbrev pub IsCalm : Env → Type 0
IsCalm E = (r : Request E.Unstructured) (st : E.State) → has_panicked (E.respond r st).0 ≡ false

-- The state after a call, which is recorded, and after a look at the clock or a wait.
abbrev pub called :
    (E : Env) → Request E.Unstructured → Sys E.State E.Unstructured → Sys E.State E.Unstructured
called E r s = record {
  state = (E.respond r s.state).1;
  trace = record { request = r; failed = has_failed (E.respond r s.state).0 } ∷ s.trace;
}

abbrev pub looked : (E : Env) → Sys E.State E.Unstructured → Sys E.State E.Unstructured
looked E s = record s { state = (E.clock s.state).1 }

abbrev pub waited : (E : Env) → ℕ → Sys E.State E.Unstructured → Sys E.State E.Unstructured
waited E n s = record s { state = E.elapse n s.state }

module _ (E : Env) where
  -- A call, which is recorded.
  unfoldable pub perform :
      (r : Request E.Unstructured) → Program E (Response E.Unstructured E.Body r)
  perform r s =
      let (answer, state) = E.respond r s.state in
      (
        answer,
        record {
          state = state;
          trace = record { request = r; failed = has_failed answer } ∷ s.trace;
        },
      )

  unfoldable pub unix_now : Program E ℤ
  unix_now s = let (time, state) = E.clock s.state in (ok time, record s { state = state })

  unfoldable pub pause : ℕ → Program E Unit
  pause seconds s = (ok tt, record s { state = E.elapse seconds s.state })
