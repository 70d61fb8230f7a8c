-- ===== src/Provider/Credentials/Checks.antt =====
-- Which Secrets `CredentialsFromSecret` of internal/provider/provider_resolver.go accepts.
use obs_operator.Base.{◌≡◌, refl, true, false, inl, inr, Bool-cases}
use obs_operator.Base.{◌==◌, string_eq, ◌||◌}
use obs_operator.Errors.{Result, ok, err, missing_credentials, error_is, sentinel_eq}
use obs_operator.Api.{Secret}
use obs_operator.Provider.Credentials.{
  Credentials, secret_value, credentials_from_secret, sentinel_error,
}

-- The credentials are the trimmed values of a Secret, and both keys are there.
abbrev pub AreOf : Secret → Credentials → Type 0
AreOf s c =
    (c.access_key_id ≡ secret_value s "accessKeyID")
    × (c.secret_access_key ≡ secret_value s "secretAccessKey")
    × (c.security_token ≡ secret_value s "securityToken")
    × ((c.access_key_id == "") ≡ false)
    × ((c.secret_access_key == "") ≡ false)

-- A key that has to be there is missing or blank.
abbrev pub LacksKey : Secret → Type 0
LacksKey s =
    ((secret_value s "accessKeyID" == "") || (secret_value s "secretAccessKey" == "")) ≡ true

abbrev pub CredentialsVerdict : Secret → Result Credentials → Type 0
CredentialsVerdict s (ok c) = AreOf s c
CredentialsVerdict s (err e) = LacksKey s × (error_is e missing_credentials ≡ true)

-- A Secret gives credentials, the trimmed values of its keys, only if neither the access key id
-- nor the secret access key is missing or blank; otherwise one of them is, and the error is
-- `ErrMissingCredentials`.
pub credentials_from_secret-CredentialsVerdict :
    (s : Secret) → CredentialsVerdict s (credentials_from_secret s)
unfolding credentials_from_secret error_is sentinel_error sentinel_eq
credentials_from_secret-CredentialsVerdict s =
    elim (Bool-cases (secret_value s "accessKeyID" == "")) [
      | inl a ↦ rw a (rw a refl, refl)
      | inr a ↦ elim (Bool-cases (secret_value s "secretAccessKey" == "")) [
        | inl b ↦ rw (a, b) (rw (a, b) refl, refl)
        | inr b ↦ rw (a, b) (refl, refl, refl, a, b)
      ]
    ]
