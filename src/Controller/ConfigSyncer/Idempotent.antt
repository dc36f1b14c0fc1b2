-- ===== src/Controller/ConfigSyncer/Idempotent.antt =====
-- What `SyncConfig` leaves in the ConfigMap, and what a second run does.
use mathlib.Core.Option.{some-injective}
use k4all_operator.Base.{
  [], ◌∷◌, String, ◌≡◌, refl, ◌∙◌, sym, subst, arith, some, Bool-cases, inl, inr, ◌==◌, eq_iff,
}
use k4all_operator.Base.Dict.{insert, lookup, text_at, text_at-insert}
use k4all_operator.Base.Effect.{Result, ok, err, panic, is_not_found, handle, ◌>>=◌, wrapping}
use k4all_operator.Config.Types.{Config}
use k4all_operator.Config.Files.{parse_config_file}
use k4all_operator.Controller.ConfigSyncer.{
  Syncer, made, config_map_key, refresh, store_copy, sync_config,
}
use k4all_operator.World.{Env, perform}
use k4all_operator.World.Objects.{NamespacedName, ConfigMap, Kind}
use k4all_operator.World.Requests.{Sys, get_object, read_file}
use k4all_operator.World.ConfigMaps.{IsConfigMapStore, IsApart, config_map_key as store_key}
use k4all_operator.World.Emits.{Emitted, Emitted-trans, here, more, IsRead}
use k4all_operator.World.FileSystem.{IsFileSystem}

module _ (E : Env) (F : IsFileSystem E) (M : IsConfigMapStore E) (A : IsApart E F M)
    (syncer : Syncer) (raw text : String) (config : Config) (parsed : E.unmarshal raw ≡ ok config)
    (encoded : E.marshal_indent config ≡ ok text) where
  abbrev key : NamespacedName
  key = config_map_key E syncer

  -- the file holds `raw`
  abbrev Held : Sys E.State E.Unstructured → Type 0
  Held s = F.content s.state syncer.config_path ≡ some raw

  -- the ConfigMap holds `text`
  abbrev Copied : Sys E.State E.Unstructured → Type 0
  Copied s =
      (cm : ConfigMap) × (M.stored s.state key ≡ some cm)
      × (text_at "config.json" (made cm.entries) ≡ text)

  refresh-Copied :
      (cm : ConfigMap) (s : Sys E.State E.Unstructured)
      → Held s
      → M.stored s.state key ≡ some cm
      → store_key cm ≡ key
      → (refresh E syncer text cm s).0 ≡ ok tt
      → Held (refresh E syncer text cm s).1 × Copied (refresh E syncer text cm s).1
  unfolding refresh perform
  refresh-Copied cm s held stored keyed done =
      elim (Bool-cases (text_at "config.json" (made cm.entries) == text)) [
        | inl same ↦ rw same (held, (cm, stored, (eq_iff _ _).0 same))
        | inr changed ↦
            let new = record cm { entries = some (insert "config.json" text (made cm.entries)) } in
            rw changed (
              A.content-update new syncer.config_path s.state ∙ held,
              (
                new,
                rw (← keyed) (M.stored-update new s.state (rw changed at done)),
                text_at-insert "config.json" text (made cm.entries),
              ),
            )
      ]

  abbrev get_cm : Sys E.State E.Unstructured → Result ConfigMap
  get_cm s = (E.respond (get_object Kind.config_map key) s.state).0

  store_copy-Copied :
      (s : Sys E.State E.Unstructured) (answer : Result ConfigMap)
      → get_cm s ≡ answer
      → M.current s.state key
      → Held s
      → (store_copy E syncer text s).0 ≡ ok tt
      → Held (store_copy E syncer text s).1 × Copied (store_copy E syncer text s).1
  unfolding store_copy handle perform text_at lookup
  store_copy-Copied s (ok cm) e fresh held done =
      let found = M.get-ok key cm s.state fresh e in
      rw e (
        refresh-Copied cm _ (A.content-get key syncer.config_path s.state ∙ held)
          (M.stored-get key key s.state ∙ found) (M.get-named key cm s.state e) (rw e at done))
  store_copy-Copied s (err x) e fresh held done = elim (Bool-cases (is_not_found x)) [
    | inl missing ↦
        let new : ConfigMap = record {
          name = syncer.config_map_name;
          namespace_ = syncer.config_map_ns;
          entries = some (("config.json", text) ∷ []);
        } in
        rw (e, missing)
          (
            A.content-create new syncer.config_path _
                ∙ A.content-get key syncer.config_path s.state
                ∙ held,
            (new, M.stored-create new _ (rw (e, missing) at done), refl),
          )
    | inr other ↦ cc (rw (e, other) at done)
  ]
  store_copy-Copied s (panic m) e fresh held done = cc (rw e at done)

  -- from a file that parses, the ConfigMap is all that is left to do
  sync_config-store_copy :
      (s : Sys E.State E.Unstructured)
      → Held s
      → sync_config E syncer s
        ≡ store_copy E syncer text (perform E (read_file syncer.config_path) s).1
  unfolding sync_config parse_config_file ◌>>=◌ wrapping perform
  sync_config-store_copy s held = ground (arith, F.read-ok syncer.config_path raw s.state held)

  sync_config-Copied :
      (s : Sys E.State E.Unstructured)
      → M.current s.state key
      → Held s
      → (sync_config E syncer s).0 ≡ ok tt
      → Held (sync_config E syncer s).1 × Copied (sync_config E syncer s).1
  unfolding perform
  sync_config-Copied s fresh held done =
      let step = sync_config-store_copy s held in
      rw step (
        store_copy-Copied _ _ refl
          (M.current-left (read_file syncer.config_path) key s.state tt fresh) (A-read s ∙ held)
          (rw step at done))
    where
      A-read :
          (s : Sys E.State E.Unstructured)
          → F.content (E.respond (read_file syncer.config_path) s.state).1 syncer.config_path
            ≡ F.content s.state syncer.config_path
      A-read s = F.content-read syncer.config_path syncer.config_path s.state

  store_copy_again :
      (s : Sys E.State E.Unstructured) (answer : Result ConfigMap)
      → get_cm s ≡ answer
      → M.current s.state key
      → Copied s
      → Emitted IsRead s.trace (store_copy E syncer text s).1.trace
  unfolding store_copy handle perform refresh
  store_copy_again s (ok cm) e fresh (cm', stored, same) =
      let one = some-injective cm' cm (sym stored ∙ M.get-ok key cm s.state fresh e) in
      let same' = subst (λ c. text_at "config.json" (made c.entries) ≡ text) one same in
      rw e (rw ((eq_iff _ text).1 same', refresh) (more _ tt here))
  store_copy_again s (err x) e fresh (cm', stored, same) = elim (Bool-cases (is_not_found x)) [
    | inl missing ↦ cc (M.get-not_found key x s.state fresh e missing, stored)
    | inr other ↦ rw (e, other) (more _ tt here)
  ]
  store_copy_again s (panic m) e fresh copied = rw e (more _ tt here)

  -- where the file and the ConfigMap hold the same, nothing is written
  pub sync_config_reads :
      (s : Sys E.State E.Unstructured)
      → M.current s.state key
      → Held s
      → Copied s
      → Emitted IsRead s.trace (sync_config E syncer s).1.trace
  sync_config_reads s fresh held (cm, stored, same) = rw (sync_config-store_copy s held) (
      unfold perform in
      Emitted-trans (more _ tt here) (
        store_copy_again _ _ refl
          (M.current-left (read_file syncer.config_path) key s.state tt fresh)
          (cm, A.stored-read _ key s.state ∙ stored, same)))

  -- Let a synchronisation return nil that started with the client's cache up to date with the
  -- ConfigMap. From any state with the same file and the same stored ConfigMap, where the
  -- cache is up to date again, a synchronisation writes nothing: it only reads the file and the
  -- ConfigMap, whatever answers it gets.
  pub sync_config_again :
      (s u : Sys E.State E.Unstructured)
      → M.current s.state (config_map_key E syncer)
      → F.content s.state syncer.config_path ≡ some raw
      → (sync_config E syncer s).0 ≡ ok tt
      → F.content u.state syncer.config_path ≡ some raw
      → M.stored u.state (config_map_key E syncer)
        ≡ M.stored (sync_config E syncer s).1.state (config_map_key E syncer)
      → M.current u.state (config_map_key E syncer)
      → Emitted IsRead u.trace (sync_config E syncer u).1.trace
  sync_config_again s u fresh held done held' same fresh' =
      let (_, (cm, stored, holds)) = sync_config-Copied s fresh held done in
      sync_config_reads u fresh' held' (cm, same ∙ stored, holds)

  -- After a synchronisation that returned nil, and started with the client's cache up to date with
  -- the ConfigMap, the ConfigMap holds the encoding of what the file holds.
  pub sync_config_copies :
      (s : Sys E.State E.Unstructured)
      → M.current s.state (config_map_key E syncer)
      → F.content s.state syncer.config_path ≡ some raw
      → (sync_config E syncer s).0 ≡ ok tt
      → (cm : ConfigMap) × (M.stored (sync_config E syncer s).1.state (config_map_key E syncer)
          ≡ some cm)
        × (text_at "config.json" (made cm.entries) ≡ text)
  sync_config_copies s fresh held done = (sync_config-Copied s fresh held done).1
