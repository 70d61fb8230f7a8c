-- ===== src/Tests/Resolving.antt =====
-- The properties of the resolver, on the service of `Sample`.
use obs_operator.Sample.{meta}
use obs_operator.Sample.{constants, private_acl}
use obs_operator.Base.{◌≡◌, refl, none, nat_eq, string_eq, option_eq}
use obs_operator.Base.Dict.{lookup, insert}
use obs_operator.Errors.{ok, sentinel_eq}
use obs_operator.Api.{namespaced_name_eq}
use obs_operator.Services.Action.{running}
use obs_operator.Provider.Cache.{get, set, set_over, new_resolved_client, cache_key_eq}
use obs_operator.Provider.Cache.Counts.{obs_client_eq}
use obs_operator.Provider.Cache.Coherence.{IsCoherentCache}
use obs_operator.Provider.Credentials.Checks.{
  CredentialsVerdict, credentials_from_secret-CredentialsVerdict,
}
use obs_operator.Provider.Credentials.{
  credentials_hash, credentials_text, observed_provider_revision, terminated, revision_values,
  credentials_from_secret, secret_value, sentinel_error,
}
use obs_operator.Base.Text.{has_substring, trim_right, decimal, trim_space}
use obs_operator.Provider.Endpoint.{
  checked_endpoint, endpoint_or_default, with_scheme, is_slash, resolve_endpoint,
  endpoint_candidate,
}
use obs_operator.Provider.Endpoint.Checks.{EndpointVerdict, resolve_endpoint-EndpointVerdict}
use obs_operator.Provider.Resolver.Hits.{IsServed, resolve_again-IsServed}
use obs_operator.Provider.Resolver.{
  cache_get, cache_set, client_for, build_client, cache_key, resolve_provider_config_object,
}
use obs_operator.Provider.Resolver.Coherence.{resolve_provider_config_object-IsCoherentCache}
use obs_operator.BucketController.Destroy.Emptying.{object_version_eq}
use obs_operator.BucketController.Acl.{grant_signature_eq}
use obs_operator.ProviderConfigController.Reconcile.Idempotence.{
  written_config, update_status_again,
}
use obs_operator.ProviderConfigController.Reconcile.{
  update_status, ready_condition, reconcile_config, validate_resolved,
}
use obs_operator.ProviderConfigController.Reconcile.Invalidation.{
  get-reconcile_config, reconcile_config-IsCoherentCache,
}
use obs_operator.Sample
use obs_operator.Sample.{Store, services, secret, blank_secret, config, client, meta}
use obs_operator.Sample.Laws.{set_condition_once}
use obs_operator.Sample.Fixtures.{
  here, blank, first_key, cached_clients, world, blank_world, resolved_client,
}

resolve_endpoint-EndpointVerdict_example :
    EndpointVerdict here "https://obs.eu-de.otc.t-systems.com"
      (ok "https://obs.eu-de.otc.t-systems.com")
unfolding resolve_endpoint endpoint_candidate Sample.parse
resolve_endpoint-EndpointVerdict_example = resolve_endpoint-EndpointVerdict here "eu-de" ""

credentials_from_secret-CredentialsVerdict_example :
    CredentialsVerdict blank_secret (credentials_from_secret blank_secret)
credentials_from_secret-CredentialsVerdict_example =
    credentials_from_secret-CredentialsVerdict blank_secret

resolve_provider_config_object-IsCoherentCache_example :
    IsCoherentCache (resolve_provider_config_object here config world).1.cache
unfolding lookup
resolve_provider_config_object-IsCoherentCache_example =
    resolve_provider_config_object-IsCoherentCache here config world
      (refl, (refl, refl, refl, refl, refl), refl, tt)

reconcile_config-IsCoherentCache_example :
    IsCoherentCache (reconcile_config here config world).1.cache
unfolding lookup
reconcile_config-IsCoherentCache_example =
    reconcile_config-IsCoherentCache here config world
      (refl, (refl, refl, refl, refl, refl), refl, tt)

get-reconcile_config_example :
    get (reconcile_config blank config blank_world).1.cache first_key ≡ none
unfolding lookup running resolve_provider_config_object validate_resolved credentials_from_secret
    secret_value trim_space string_eq sentinel_error Sample.perform Sample.ask
get-reconcile_config_example =
    get-reconcile_config blank config blank_world _ first_key
      (refl, (refl, refl, refl, refl, refl), refl, tt) refl refl

resolve_again-IsServed_example :
    IsServed here config resolved_client (resolve_provider_config_object here config world).1
unfolding running lookup resolve_provider_config_object credentials_from_secret secret_value
    trim_space string_eq resolve_endpoint endpoint_candidate checked_endpoint endpoint_or_default
    with_scheme has_substring trim_right is_slash cache_get cache_set client_for build_client get
    set set_over insert new_resolved_client cache_key_eq namespaced_name_eq cache_key
    credentials_hash credentials_text observed_provider_revision terminated revision_values decimal
    Sample.perform Sample.ask Sample.parse
resolve_again-IsServed_example =
    resolve_again-IsServed here config world cached_clients resolved_client refl
      (refl, (refl, refl, refl, refl, refl), refl, tt) refl refl

update_status_again_example :
    update_status here
      (written_config here set_condition_once 10 11 config (ready_condition here config none) "r1")
      (ready_condition here config none)
      "r1"
      world
    ≡ (ok tt, world)
update_status_again_example =
    update_status_again here set_condition_once 10 11 config (ready_condition here config none) "r1"
      world
