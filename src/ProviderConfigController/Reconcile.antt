-- ===== src/ProviderConfigController/Reconcile.antt =====
-- `(*ProviderConfigReconciler).Reconcile`: resolve the configuration, list the buckets with its
-- client, drop the client on a failure, and write the Ready condition.
pub mod Idempotence
pub mod Invalidation
use obs_operator.Base.{ℕ, String, ◌<>◌, Bool, true, false, not, ◌||◌, Option, none, some}
use obs_operator.Base.{◌==◌, string_eq, nat_eq, is_some, if◌then◌else◌}
use obs_operator.Errors.{
  GoError, Result, ok, err, credentials_secret_not_found, missing_credentials, invalid_endpoint,
  provider_validation_failed, sentinel, sentinel_text, sentinel_eq, wrap_errors, also, end,
  error_text, error_is,
}
use obs_operator.Api.{NamespacedName, ProviderConfig, ProviderConfigStatus, Condition}
use obs_operator.Services.{
  Services, ObsClient, list_buckets, get_provider_config, patch_provider_config_status,
}
use obs_operator.Services.Action.{
  Action, pure, fail, ◌>>=◌, ◌>>◌, handle, attempt, read_world, call, check_context, on_error,
}
use obs_operator.Provider.Cache.{ResolvedClient}
use obs_operator.Provider.Resolver.{
  resolve_provider_config_object, invalidate_provider, with_new_cache,
}
use obs_operator.BucketController.Status.{conditions_equal}

-- `fmt.Errorf("%w: %w", errProviderValidationFailed, err)`
unfoldable pub validation_error : GoError → GoError
unfolding error_text
validation_error e =
    wrap_errors (sentinel_text provider_validation_failed <> ": " <> error_text e)
      (also (sentinel provider_validation_failed) (also e end))

module _ (K : Services) where
  -- `validateProviderClient`
  unfoldable pub validate_provider_client : ObsClient → Action K (Unit {0})
  validate_provider_client client = do
    check_context K
    on_error (λ e. err (validation_error e)) (call K (list_buckets client))

  -- The `switch` of `providerConfigReadyCondition`.
  unfoldable pub failure_reason : GoError → String
  unfolding error_is sentinel_eq
  failure_reason e =
      if error_is e credentials_secret_not_found
      then "CredentialsSecretNotFound"
      else if K.is_not_found e
      then "CredentialsSecretNotFound"
      else if error_is e missing_credentials
      then "CredentialsSecretInvalid"
      else if error_is e invalid_endpoint
      then "InvalidEndpoint"
      else if error_is e provider_validation_failed
      then "ClientValidationFailed"
      else "ClientBuildFailed"

  -- `providerConfigReadyCondition`
  unfoldable pub ready_condition : ProviderConfig → Option GoError → Condition
  unfolding failure_reason error_text
  ready_condition c none = record {
    kind = "Ready";
    status = "True";
    reason = "ClientValidated";
    message = "OBS client credentials were validated";
    observed_generation = c.generation;
    last_transition_time = 0;
  }
  ready_condition c (some e) = record {
    kind = "Ready";
    status = "False";
    reason = failure_reason e;
    message = error_text e;
    observed_generation = c.generation;
    last_transition_time = 0;
  }

  -- `statusChanged` of `updateProviderConfigStatus`.
  unfoldable pub status_changed : ProviderConfigStatus → ProviderConfigStatus → Bool
  unfolding string_eq nat_eq conditions_equal
  status_changed original next =
      not (original.observed_generation == next.observed_generation)
      || not (original.observed_provider_revision == next.observed_provider_revision)
      || not (is_some original.last_validation_time)
      || not (conditions_equal original.conditions next.conditions)

  unfoldable pub next_status : ℕ → ProviderConfig → Condition → String → ProviderConfigStatus
  next_status now c condition revision = record (c.status) {
    observed_generation = c.generation;
    observed_provider_revision = revision;
    conditions = K.set_status_condition now c.status.conditions condition;
  }

  -- `updateProviderConfigStatus`
  unfoldable pub update_status : ProviderConfig → Condition → String → Action K (Unit {0})
  update_status c condition revision = do
    w ← read_world
    let next = next_status (K.now w.svc) c condition revision
    if status_changed c.status next
        then call K (
            patch_provider_config_status c
              (record c { status = record next { last_validation_time = some (K.now w.svc) } }))
        else pure tt

  -- The error of the resolution, or else of the validation.
  unfoldable pub validate_resolved : Result ResolvedClient → Action K (Option GoError)
  validate_resolved (err e) = pure (some e)
  validate_resolved (ok resolved) =
      handle (validate_provider_client resolved.obs) (λ _. pure none) (λ e. pure (some e))

  -- `providerRevision`
  unfoldable pub revision_of : Result ResolvedClient → String
  revision_of (err _) = ""
  revision_of (ok resolved) = resolved.provider_revision

  -- `if err != nil { resolver.InvalidateProvider(…) }`
  unfoldable pub invalidate_on : Option GoError → ProviderConfig → Action K (Unit {0})
  invalidate_on none c = pure tt
  invalidate_on (some _) c =
      invalidate_provider K (record { namespace = c.namespace; name = c.name })

  -- `Reconcile` of a configuration that was read, on the resolver's cache.
  unfoldable pub reconcile_config : ProviderConfig → Action K (Unit {0})
  reconcile_config c = do
    resolved ← attempt (resolve_provider_config_object K c)
    e ← validate_resolved resolved
    invalidate_on e c
    update_status c (ready_condition c e) (revision_of resolved)

  -- A reconciler without a resolver makes one with a new cache.
  unfoldable pub reconcile_read : Bool → ProviderConfig → Action K (Unit {0})
  reconcile_read true c = reconcile_config c
  reconcile_read false c = with_new_cache K (reconcile_config c)

  -- What follows a failed read: a configuration that is gone loses its client.
  unfoldable pub read_failed : Bool → NamespacedName → GoError → Action K (Unit {0})
  read_failed has_resolver key e =
      if K.is_not_found e
      then (if has_resolver then invalidate_provider K key else pure tt)
      else fail e

  unfoldable pub reconcile : Bool → NamespacedName → Action K (Unit {0})
  reconcile has_resolver key =
      handle (call K (get_provider_config key)) (reconcile_read has_resolver)
        (read_failed has_resolver key)
