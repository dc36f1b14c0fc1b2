-- ===== src/Virt/Emulation/Settled.antt =====
-- The setting after UpdateEmulationSetting.
use k4all_operator.Base.{
  ◌≡◌, refl, sym, subst, ◌∙◌, Option, none, some, Bool, true, false, Bool-cases, arith, inl, inr,
}
use k4all_operator.Base.Effect.{ok, Result-cases, handle, ◌>>=◌}
use k4all_operator.Base.Triple.{bind-ok}
use k4all_operator.Downloader.Ready.{kubevirt_gvk, kubevirt_name}
use k4all_operator.Virt.Emulation.{use_emulation_path, is_settled, settle, update_emulation_setting}
use k4all_operator.World.{Env, perform}
use k4all_operator.World.KubeVirt.{HasField}
use k4all_operator.World.Objects.{Kind}
use k4all_operator.World.Requests.{Sys, get_object}

-- The setting is the wanted one, where one that is not there stands for no emulation.
abbrev pub Wanted : Bool → Option Bool → Type 0
Wanted use_emulation none = use_emulation ≡ false
Wanted use_emulation (some setting) = setting ≡ use_emulation

is_settled-Wanted :
    (setting : Option Bool) (use_emulation : Bool)
    → is_settled setting use_emulation ≡ true
    → Wanted use_emulation setting
unfolding is_settled
is_settled-Wanted none false right = refl
is_settled-Wanted none true right = cc right
is_settled-Wanted (some false) false right = refl
is_settled-Wanted (some false) true right = cc right
is_settled-Wanted (some true) false right = cc right
is_settled-Wanted (some true) true right = refl

module _ (E : Env) (K : HasField E kubevirt_gvk kubevirt_name use_emulation_path) where
  -- The stored resource has the wanted setting.
  abbrev pub Settled : Bool → Sys E.State E.Unstructured → Type 0
  Settled use_emulation s =
      (setting : Option Bool) × (K.field s.state ≡ ok setting) × Wanted use_emulation setting

  settle-Settled :
      (use_emulation : Bool) (kubevirt : E.Unstructured) (current : Option Bool)
      (s : Sys E.State E.Unstructured)
      → E.name_of kubevirt ≡ kubevirt_name.name
      → E.namespace_of kubevirt ≡ kubevirt_name.namespace_
      → K.field s.state ≡ ok current
      → (settle E use_emulation kubevirt current s).0 ≡ ok tt
      → Settled use_emulation (settle E use_emulation kubevirt current s).1
  unfolding settle ◌>>=◌ handle perform
  settle-Settled use_emulation kubevirt current s name ns stored done =
      elim (Bool-cases (is_settled current use_emulation)) [
        | inl right ↦
            (current, ground (arith, right, stored), is_settled-Wanted current use_emulation right)
        | inr wrong ↦
            elim (Result-cases (E.set_nested_bool use_emulation use_emulation_path kubevirt)) [
              | inl (updated, set) ↦
                  let (reads, named, placed) =
                    K.nested_bool-set use_emulation kubevirt updated set in
                  (
                    some use_emulation,
                    ground (
                      arith,
                      wrong,
                      set,
                      done,
                      reads,
                      named,
                      placed,
                      name,
                      ns,
                      K.field-update updated s.state,
                    ),
                    refl,
                  )
              | inr (inl (e, set)) ↦ ground (arith, wrong, set, done)
              | inr (inr (m, set)) ↦ ground (arith, wrong, set, done)
            ]
      ]

  read_field :
      (s : Sys E.State E.Unstructured) (obj : E.Unstructured)
      → let got = perform E (get_object (Kind.custom kubevirt_gvk) kubevirt_name) s in
        got.0 ≡ ok obj
        → ((E.nested_bool obj use_emulation_path ≡ K.field s.state)
            × (E.name_of obj ≡ kubevirt_name.name)
            × (E.namespace_of obj ≡ kubevirt_name.namespace_))
          × (K.field got.1.state ≡ K.field s.state)
  unfolding perform
  read_field s obj got = (K.get-field obj s.state got, K.field-get s.state)

  -- If the update returns nil, then the stored resource has the wanted setting, where one that is
  -- not there stands for no emulation.
  pub update_emulation_setting-Settled :
      (use_emulation : Bool) (s : Sys E.State E.Unstructured)
      → (update_emulation_setting E use_emulation s).0 ≡ ok tt
      → Settled use_emulation (update_emulation_setting E use_emulation s).1
  unfolding update_emulation_setting
  update_emulation_setting-Settled use_emulation s done =
      let (kubevirt, got, done1, at1) = bind-ok _ _ s tt done in
      let (current, read, done2, at2) = bind-ok _ _ _ tt done1 in
      let ((reads, name, ns), kept) = read_field s kubevirt got in
      subst (Settled use_emulation) (at2 ∙ at1)
        (settle-Settled use_emulation kubevirt current _ name ns (kept ∙ (sym reads ∙ read)) done2)
