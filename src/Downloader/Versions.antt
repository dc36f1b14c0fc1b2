-- ===== src/Downloader/Versions.antt =====
-- The versions to install, from the network.
use k4all_operator.Base.{ℕ, String, ◌<>◌, ◌==◌, not, nat_eq, if◌then◌else◌}
use k4all_operator.Base.Decimal.{format_int}
use k4all_operator.Base.Effect.{Error, other, pure, fail, lift, ◌>>=◌, wrapping}
use k4all_operator.Base.Int.{pos}
use k4all_operator.World.{Env, Program, perform}
use k4all_operator.World.Requests.{http_get}

-- The error for a status that is not 200, http.StatusOK.
abbrev pub unexpected_status : ℕ → Error
unexpected_status code = other ("unexpected status code: " <> format_int (pos code))

-- Without the prefix "v".
unfoldable pub strip_v : String → String
strip_v String.[] = ""
strip_v (String.◌∷◌ c rest) = if String.◌∷◌ c "" == "v" then rest else String.◌∷◌ c rest

module _ (E : Env) where
  unfoldable pub get_latest_kubevirt_version : Program E String
  get_latest_kubevirt_version = do
    resp ← wrapping "failed to get latest KubeVirt version" (
        perform E (
          http_get
            "https://storage.googleapis.com/kubevirt-prow/release/kubevirt/kubevirt/stable.txt"))
    if not (nat_eq resp.status_code 200)
        then fail (unexpected_status resp.status_code)
        else wrapping "failed to read version response" (lift (E.read_all resp.body))

  unfoldable pub get_latest_cdi_version : Program E String
  unfolding strip_v
  get_latest_cdi_version = do
    resp ← wrapping "failed to get latest CDI version" (
        perform E (
          http_get
            "https://api.github.com/repos/kubevirt/containerized-data-importer/releases/latest"))
    if not (nat_eq resp.status_code 200) then fail (unexpected_status resp.status_code) else do
      tag_name ←
          wrapping "failed to decode GitHub API response" (lift (E.decode_tag_name resp.body))
      pure (strip_v tag_name)
