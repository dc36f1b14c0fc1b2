-- ===== src/Virt/Emulation.antt =====
-- UpdateEmulationSetting.
pub mod Settled
use k4all_operator.Base.{
  String, List, [], ◌∷◌, Option, none, some, Bool, true, false, not, if◌then◌else◌,
}
use k4all_operator.Base.Effect.{pure, lift, handle, ◌>>=◌, ◌>>◌}
use k4all_operator.Downloader.Ready.{kubevirt_gvk, kubevirt_name}
use k4all_operator.World.{Env, Program, perform}
use k4all_operator.World.Objects.{Kind}
use k4all_operator.World.Requests.{get_object, update_object}

abbrev pub use_emulation_path : List String
use_emulation_path = "spec" ∷ "configuration" ∷ "developerConfiguration" ∷ "useEmulation" ∷ []

-- (found && currentValue == useEmulation) || (!found && !useEmulation)
unfoldable pub is_settled : Option Bool → Bool → Bool
is_settled none use_emulation = not use_emulation
is_settled (some true) use_emulation = use_emulation
is_settled (some false) use_emulation = not use_emulation

module _ (E : Env) where
  -- From the current setting on: the update, unless the setting is right.
  unfoldable pub settle : Bool → E.Unstructured → Option Bool → Program E Unit
  unfolding is_settled
  settle use_emulation kubevirt current = if is_settled current use_emulation then pure tt else do
    updated ← lift (E.set_nested_bool use_emulation use_emulation_path kubevirt)
    perform E (update_object (Kind.custom kubevirt_gvk) updated)

  unfoldable pub update_emulation_setting : Bool → Program E Unit
  unfolding settle
  update_emulation_setting use_emulation = do
    kubevirt ← perform E (get_object (Kind.custom kubevirt_gvk) kubevirt_name)
    current ← lift (E.nested_bool kubevirt use_emulation_path)
    settle use_emulation kubevirt current
