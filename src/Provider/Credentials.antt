-- ===== src/Provider/Credentials.antt =====
-- Credentials and the two hashes of internal/provider/provider_resolver.go.
pub mod Checks
use obs_operator.Base.{String, ◌<>◌, none, some, List, [], ◌∷◌, ◌==◌, string_eq}
use obs_operator.Base.{if◌then◌else◌}
use obs_operator.Base.Dict.{lookup}
use obs_operator.Base.Text.{trim_space, decimal}
use obs_operator.Errors.{
  GoError, Result, ok, err, Sentinel, missing_credentials, sentinel, sentinel_text, wrap_error,
}
use obs_operator.Api.{Secret, ProviderConfig}
use obs_operator.Services.{Services}

pub record Credentials : Type 0 where
  pub access_key_id : String
  pub secret_access_key : String
  pub security_token : String

-- `fmt.Errorf("%w: " + message, sentinel)`
unfoldable pub sentinel_error : Sentinel → String → GoError
sentinel_error s message = wrap_error (sentinel_text s <> ": " <> message) (sentinel s)

-- `strings.TrimSpace(string(secret.Data[key]))`, where a missing key reads as empty.
unfoldable pub secret_value : Secret → String → String
unfolding lookup string_eq trim_space
secret_value secret key = elim (lookup key secret.values) [ none ↦ "" | some v ↦ trim_space v ]

abbrev missing_key : Secret → String → GoError
missing_key secret key = sentinel_error missing_credentials (
    "secret " <> secret.namespace <> "/" <> secret.name <> " data key \"" <> key
    <> "\" is required")

-- `CredentialsFromSecret`
unfoldable pub credentials_from_secret : Secret → Result Credentials
unfolding secret_value string_eq sentinel_error
credentials_from_secret secret =
    if secret_value secret "accessKeyID" == ""
    then err (missing_key secret "accessKeyID")
    else if secret_value secret "secretAccessKey" == ""
    then err (missing_key secret "secretAccessKey")
    else ok (record {
      access_key_id = secret_value secret "accessKeyID";
      secret_access_key = secret_value secret "secretAccessKey";
      security_token = secret_value secret "securityToken";
    })

-- The text that `Credentials.Hash` feeds to the hash: a zero byte parts the values.
unfoldable pub credentials_text : Credentials → String
credentials_text c = c.access_key_id <> "\0" <> c.secret_access_key <> "\0" <> c.security_token

-- The values of `observedProviderRevision`, each with a zero byte behind it.
unfoldable pub terminated : List String → String
terminated [] = ""
terminated (v ∷ vs) = v <> "\0" <> terminated vs

unfoldable pub revision_values : ProviderConfig → Secret → String → String → List String
unfolding decimal
revision_values config secret region endpoint =
    config.namespace
    ∷ config.name
    ∷ config.uid
    ∷ decimal config.generation
    ∷ secret.namespace
    ∷ secret.name
    ∷ secret.uid
    ∷ secret.resource_version
    ∷ region
    ∷ endpoint
    ∷ []

module _ (K : Services) where
  -- `Credentials.Hash`
  unfoldable pub credentials_hash : Credentials → String
  unfolding credentials_text
  credentials_hash c = K.sha256_hex (credentials_text c)

  -- `observedProviderRevision`
  unfoldable pub observed_provider_revision : ProviderConfig → Secret → String → String → String
  unfolding terminated revision_values
  observed_provider_revision config secret region endpoint =
      K.sha256_hex (terminated (revision_values config secret region endpoint))
