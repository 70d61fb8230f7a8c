-- ===== src/BucketController/ErrorKinds.antt =====
-- How the Bucket controller reads an error: the OBS error codes, which errors a user has to
-- correct, and the Ready condition that an error stands for.
pub mod Chains
use obs_operator.Base.{ℕ, String, Bool, true, false, ◌&&◌, ◌||◌, Option, none, some}
use obs_operator.Base.{◌==◌, string_eq, nat_eq, ltb, leb, if◌then◌else◌}
use obs_operator.Errors.{
  GoError, sentinel, obs_error, foreign, wrap_error, wrap_errors, join_error, resolution_not_found,
  ErrorList, end, also, provider_config_not_found, credentials_secret_not_found,
  missing_credentials, invalid_endpoint, bucket_already_exists, sentinel_eq, error_text, error_is,
  error_as_obs,
}
use obs_operator.Api.{Bucket, Condition}
use obs_operator.Services.{Services}

unfoldable pub is_bucket_not_found : GoError → Bool
unfolding error_as_obs string_eq nat_eq
is_bucket_not_found e = elim (error_as_obs e) [
  | none ↦ false
  | some o ↦ o.status_code == 404 || o.code == "NoSuchBucket"
]

unfoldable pub is_bucket_code : GoError → String → Bool
unfolding error_as_obs string_eq
is_bucket_code e code = elim (error_as_obs e) [ none ↦ false | some o ↦ o.code == code ]

unfoldable pub is_bucket_not_empty : GoError → Bool
unfolding is_bucket_code
is_bucket_not_empty e = is_bucket_code e "BucketNotEmpty"

unfoldable pub is_create_bucket_conflict : GoError → Bool
unfolding error_as_obs string_eq nat_eq
is_create_bucket_conflict e = elim (error_as_obs e) [
  | none ↦ false
  | some o ↦
      o.status_code == 409 || o.code == "BucketAlreadyExists" || o.code == "BucketAlreadyOwnedByYou"
]

-- 404, 408, 409 and 429 are retried, and so is all outside 400 to 499.
unfoldable pub is_non_retryable_status : ℕ → Bool
unfolding nat_eq
is_non_retryable_status c =
    if c == 404 || c == 408 || c == 409 || c == 429 then false else leb 400 c && ltb c 500

unfoldable pub is_non_retryable_request_error : GoError → Bool
unfolding error_as_obs is_non_retryable_status
is_non_retryable_request_error e = elim (error_as_obs e) [
  | none ↦ false
  | some o ↦ is_non_retryable_status o.status_code
]

unfoldable pub is_user_correctable_type : GoError → Bool
unfolding error_is sentinel_eq is_non_retryable_request_error
is_user_correctable_type e =
    error_is e provider_config_not_found
    || error_is e credentials_secret_not_found
    || error_is e missing_credentials
    || error_is e invalid_endpoint
    || error_is e bucket_already_exists
    || is_non_retryable_request_error e

-- The type assertion to `interface{ Unwrap() []error }`.
abbrev pub is_joined : GoError → Bool
is_joined (wrap_errors _ _) = true
is_joined (join_error _) = true
is_joined _ = false

-- The branch for an error with `Unwrap() error`, given its child and the child's verdict.
unfoldable pub unwrapped_verdict : GoError → GoError → Bool → Bool
unfolding is_user_correctable_type
unwrapped_verdict e child verdict =
    if is_joined child then verdict else if is_user_correctable_type e then true else verdict

-- `allBucketErrorsUserCorrectable` is `all_user_correctable` of a list that is not empty.
unfoldable mutual
  unfolding is_user_correctable_type unwrapped_verdict

  pub is_user_correctable : GoError → Bool
  is_user_correctable (sentinel s) = is_user_correctable_type (sentinel s)
  is_user_correctable (obs_error o) = is_user_correctable_type (obs_error o)
  is_user_correctable (foreign f) = is_user_correctable_type (foreign f)
  is_user_correctable (wrap_error m e) =
      unwrapped_verdict (wrap_error m e) e (is_user_correctable e)
  is_user_correctable (resolution_not_found k e) =
      unwrapped_verdict (resolution_not_found k e) e (is_user_correctable e)
  is_user_correctable (wrap_errors m es) = all_user_correctable es
  is_user_correctable (join_error es) = all_user_correctable es

  pub all_user_correctable : ErrorList → Bool
  all_user_correctable end = false
  all_user_correctable (also e end) = is_user_correctable e
  all_user_correctable (also e (also f es)) =
      is_user_correctable e && all_user_correctable (also f es)

unfoldable pub ready_condition_message : GoError → String
unfolding error_as_obs error_text string_eq
ready_condition_message e = elim (error_as_obs e) [
  | none ↦ error_text e
  | some o ↦ if o.message == "" then error_text e else o.message
]

module _ (K : Services) where
  -- The `switch` of `bucketReadyStatusCondition`.
  unfoldable pub failure_reason : GoError → String
  unfolding error_is sentinel_eq is_bucket_not_empty is_bucket_not_found
      is_non_retryable_request_error
  failure_reason e =
      if error_is e provider_config_not_found
      then "ProviderConfigNotFound"
      else if error_is e credentials_secret_not_found
      then "CredentialsSecretNotFound"
      else if K.is_not_found e
      then "ProviderConfigNotFound"
      else if error_is e missing_credentials
      then "CredentialsSecretInvalid"
      else if error_is e invalid_endpoint
      then "InvalidEndpoint"
      else if error_is e bucket_already_exists
      then "BucketAlreadyExists"
      else if is_bucket_not_empty e
      then "BucketNotEmpty"
      else if is_bucket_not_found e
      then "BucketNotFound"
      else if is_non_retryable_request_error e
      then "RequestRejected"
      else "ReconcileFailed"

  -- `bucketReadyStatusCondition`; the transition time is left zero.
  unfoldable pub ready_status_condition : Bucket → Option GoError → Condition
  unfolding failure_reason ready_condition_message
  ready_status_condition b none = record {
    kind = "Ready";
    status = "True";
    reason = "BucketReady";
    message = "OBS bucket is reconciled";
    observed_generation = b.generation;
    last_transition_time = 0;
  }
  ready_status_condition b (some e) = record {
    kind = "Ready";
    status = "False";
    reason = failure_reason e;
    message = ready_condition_message e;
    observed_generation = b.generation;
    last_transition_time = 0;
  }
