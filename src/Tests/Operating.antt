-- ===== src/Tests/Operating.antt =====
-- The property of the two controllers, behind a reconcile of each.
use obs_operator.Base.{◌≡◌, refl, some, [], true}
use obs_operator.Base.{nat_eq, string_eq}
use obs_operator.Base.Dict.{lookup, insert}
use obs_operator.Base.Text.{has_substring, trim_right, trim_space}
use obs_operator.Api.{NamespacedName, namespaced_name_eq}
use obs_operator.Services.Action.{World, running}
use obs_operator.Provider.Cache.{
  CacheKey, new_cache, get, set, set_over, new_resolved_client, cache_key_eq,
}
use obs_operator.Provider.Credentials.{
  credentials_hash, credentials_text, credentials_from_secret, secret_value,
}
use obs_operator.Provider.Endpoint.{
  checked_endpoint, endpoint_or_default, with_scheme, is_slash, resolve_endpoint,
  endpoint_candidate,
}
use obs_operator.Provider.Resolver.{
  cache_get, cache_set, client_for, build_client, cache_key, resolve_provider_config_object,
  invalidate_provider,
}
use obs_operator.ProviderConfigController.Reconcile.{
  reconcile as reconcile_config_key, reconcile_read, reconcile_config, validate_resolved,
  validate_provider_client, invalidate_on, update_status, status_changed, next_status,
}
use obs_operator.Operator.{started, config_reconciled, Reach-IsBuiltFor}
use obs_operator.Sample
use obs_operator.Sample.{secret}
use obs_operator.Provider.Resolver.Building.{IsBuiltFor}
use obs_operator.Sample.Building.{
  building, config_of, perform_building, built, obs_config_eq, building-BuildsClients,
}
use obs_operator.Sample.Fixtures.{remote, stored_client, first_key}

abbrev first_world : World building
first_world = record { svc = remote; cache = new_cache; trace = [] }

abbrev config_name : NamespacedName
config_name = record { namespace = "team"; name = "otc" }

abbrev second_world : World building
second_world = (reconcile_config_key building true config_name first_world).1

abbrev stored_key : CacheKey
stored_key = record first_key { credentials_hash = "AK\0SK\0" }

found : get second_world.cache stored_key ≡ some stored_client
unfolding running reconcile_config_key reconcile_read reconcile_config validate_resolved
    validate_provider_client invalidate_on update_status invalidate_provider lookup
    resolve_provider_config_object credentials_from_secret secret_value trim_space string_eq
    resolve_endpoint endpoint_candidate checked_endpoint endpoint_or_default with_scheme
    has_substring trim_right is_slash cache_get cache_set client_for build_client get set set_over
    insert new_resolved_client cache_key_eq namespaced_name_eq cache_key credentials_hash
    credentials_text nat_eq Sample.perform perform_building built obs_config_eq Sample.ask
    Sample.parse status_changed next_status
found = refl

Reach-IsBuiltFor_example : IsBuiltFor building config_of stored_key stored_client
Reach-IsBuiltFor_example =
    Reach-IsBuiltFor building config_of building-BuildsClients second_world stored_key stored_client
      (config_reconciled first_world config_name (started remote)) found
