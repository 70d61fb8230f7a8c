-- ===== src/Provider/Endpoint.antt =====
-- `ResolveEndpoint` of internal/provider/provider_resolver.go. `url.Parse` and `(*URL).String`
-- are the services' functions.
pub mod Checks
use obs_operator.Base.{ℕ, String, ◌<>◌, Bool, not, ◌&&◌, ◌||◌, ◌==◌, string_eq, nat_eq}
use obs_operator.Base.{if◌then◌else◌}
use obs_operator.Base.Text.{trim_space, has_substring, trim_right}
use obs_operator.Errors.{Result, ok, err, invalid_endpoint, error_text}
use obs_operator.Services.{Services, Url}
use obs_operator.Provider.Credentials.{sentinel_error}

-- The endpoint of the region where none is given.
unfoldable pub endpoint_or_default : String → String → String
unfolding string_eq
endpoint_or_default region endpoint =
    if endpoint == "" then "https://obs." <> region <> ".otc.t-systems.com" else endpoint

unfoldable pub with_scheme : String → String
unfolding has_substring
with_scheme endpoint = if has_substring endpoint "://" then endpoint else "https://" <> endpoint

-- What is parsed for a region and an endpoint.
unfoldable pub endpoint_candidate : String → String → String
unfolding trim_space endpoint_or_default with_scheme
endpoint_candidate region endpoint =
    with_scheme (endpoint_or_default (trim_space region) (trim_space endpoint))

unfoldable pub is_slash : ℕ → Bool
unfolding nat_eq
is_slash c = c == b'/'

module _ (K : Services) where
  -- The tests of a parsed endpoint, and its text without path, query and fragment.
  unfoldable pub checked_endpoint : Url → Result String
  unfolding string_eq sentinel_error trim_right is_slash
  checked_endpoint u =
      if not (u.scheme == "https")
      then err (sentinel_error invalid_endpoint "endpoint scheme must be https")
      else if u.host == ""
      then err (sentinel_error invalid_endpoint "endpoint host is required")
      else if not (u.path == "") && not (u.path == "/")
      then err (sentinel_error invalid_endpoint "endpoint path must be empty")
      else if not (u.raw_query == "") || not (u.fragment == "")
      then err (sentinel_error invalid_endpoint "endpoint query and fragment are not supported")
      else ok (
          trim_right is_slash
            (K.url_string (record u { path = ""; raw_query = ""; fragment = "" })))

  unfoldable pub resolve_endpoint : String → String → Result String
  unfolding endpoint_candidate checked_endpoint error_text sentinel_error
  resolve_endpoint region endpoint = elim (K.url_parse (endpoint_candidate region endpoint)) [
    | err e ↦ err (sentinel_error invalid_endpoint (error_text e))
    | ok u ↦ checked_endpoint u
  ]
