-- ===== src/Provider/Resolver.antt =====
-- `ProviderResolver` of internal/provider/provider_resolver.go: from a ProviderConfig to an OBS
-- client, through the cache.
pub mod Coherence
pub mod Building
pub mod Hits
use obs_operator.Base.{String, true, Option, none, some, if◌then◌else◌}
use obs_operator.Base.Text.{trim_space}
use obs_operator.Errors.{
  GoError, Result, err, Sentinel, provider_config_not_found, credentials_secret_not_found,
  resolution_not_found,
}
use obs_operator.Api.{NamespacedName, Bucket, ProviderConfig, Secret}
use obs_operator.Services.{
  Services, ObsClient, ObsConfig, new_client, get_provider_config, get_secret,
}
use obs_operator.Services.Action.{
  Action, pure, ◌>>=◌, ◌>>◌, attempt, wrapped, read_world, set_cache, call, from_result, on_error,
  close_clients,
}
use obs_operator.Provider.Cache
use obs_operator.Provider.Cache.{CacheKey, ResolvedClient}
use obs_operator.Provider.Credentials.{
  Credentials, credentials_from_secret, credentials_hash, observed_provider_revision,
}
use obs_operator.Provider.Endpoint.{resolve_endpoint}

module _ (K : Services) where
  -- An API error that says "not found" becomes a `resolutionNotFoundError`.
  abbrev pub not_found_as : {A : Type 0} → Sentinel → GoError → Result A
  not_found_as kind e = if K.is_not_found e then err (resolution_not_found kind e) else err e

  abbrev pub secret_key : ProviderConfig → NamespacedName
  secret_key config = record {
    namespace = config.namespace;
    name = config.spec.credentials_secret_ref.name;
  }

  -- The ProviderConfig that a Bucket refers to.
  abbrev pub config_key : Bucket → NamespacedName
  config_key b = record { namespace = b.namespace; name = b.spec.provider_config_ref.name }

  -- The `cacheKey` of a configuration.
  unfoldable pub cache_key : ProviderConfig → Secret → Credentials → String → String → CacheKey
  unfolding credentials_hash
  cache_key config secret credentials region endpoint = record {
    provider_config = record { namespace = config.namespace; name = config.name };
    provider_uid = config.uid;
    credentials_secret = secret_key config;
    secret_uid = secret.uid;
    credentials_hash = credentials_hash K credentials;
    region = region;
    endpoint = endpoint;
  }

  -- The arguments of `obs.New` in `newOBSClient`.
  abbrev pub obs_config : Credentials → String → String → ObsConfig
  obs_config credentials endpoint region = record {
    access_key_id = credentials.access_key_id;
    secret_access_key = credentials.secret_access_key;
    security_token = credentials.security_token;
    endpoint = endpoint;
    region = region;
  }

  -- `r.cache.get(key)`
  unfoldable pub cache_get : CacheKey → Action K (Option ResolvedClient)
  cache_get key = do w ← read_world; pure (Cache.get w.cache key)

  -- `r.cache.set(key, client)`, with the clients that it closes.
  unfoldable pub cache_set : CacheKey → ObsClient → Action K ResolvedClient
  cache_set key client = do
    w ← read_world
    let (resolved, cache', closed) = Cache.set w.cache key client
    set_cache cache'
    close_clients K closed
    pure resolved

  -- What follows a cache miss.
  unfoldable pub build_client : CacheKey → ObsConfig → String → Action K ResolvedClient
  build_client key config revision = do
    client ← wrapped "build OBS client: " (call K (new_client config))
    resolved ← cache_set key client
    pure (record resolved { provider_revision = revision })

  -- The cached client with the revision of this resolution, or a new one.
  unfoldable pub client_for :
      Option ResolvedClient → CacheKey → ObsConfig → String → Action K ResolvedClient
  client_for (some r) key config revision =
      pure (record r { from_cache = true; provider_revision = revision })
  client_for none key config revision = build_client key config revision

  -- `ResolveProviderConfigObject`
  unfoldable pub resolve_provider_config_object : ProviderConfig → Action K ResolvedClient
  resolve_provider_config_object config = do
    secret ←
        on_error (not_found_as credentials_secret_not_found)
          (call K (get_secret (secret_key config)))
    credentials ← from_result (credentials_from_secret secret)
    let region = trim_space config.spec.region
    endpoint ← from_result (resolve_endpoint K region config.spec.endpoint)
    let key = cache_key config secret credentials region endpoint
    hit ← cache_get key
    client_for hit key (obs_config credentials endpoint region)
        (observed_provider_revision K config secret region endpoint)

  -- `ResolveProviderConfig`
  unfoldable pub resolve_provider_config : NamespacedName → Action K ResolvedClient
  resolve_provider_config key = do
    config ← on_error (not_found_as provider_config_not_found) (call K (get_provider_config key))
    resolve_provider_config_object config

  -- `ResolveBucket`
  unfoldable pub resolve_bucket : Bucket → Action K ResolvedClient
  resolve_bucket b = resolve_provider_config (config_key b)

  -- `InvalidateProvider`
  unfoldable pub invalidate_provider : NamespacedName → Action K (Unit {0})
  invalidate_provider name = do
    w ← read_world
    let (cache', closed) = Cache.invalidate_provider w.cache name
    set_cache cache'
    close_clients K closed

  -- A reconciler with no resolver of its own resolves with a new cache, which it drops.
  unfoldable pub with_new_cache : {A : Type 0} → Action K A → Action K A
  with_new_cache m = do
    w ← read_world
    set_cache Cache.new_cache
    r ← attempt m
    set_cache w.cache
    from_result r
