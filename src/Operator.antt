-- ===== src/Operator.antt =====
-- The two controllers of cmd/main.go at work: they share a client cache, and their reconciles follow
-- one another in any order while the world outside changes.
use obs_operator.Base.{ℕ, ◌≡◌, true, some, []}
use obs_operator.Api.{NamespacedName, ProviderConfig}
use obs_operator.Services.{Services, ObsClient, ObsConfig}
use obs_operator.Services.Action.{World}
use obs_operator.Provider.Cache.{CacheKey, ResolvedClient, new_cache, get}
use obs_operator.Provider.Cache.Held.{get-HeldIn}
use obs_operator.Provider.Resolver.{invalidate_provider}
use obs_operator.Provider.Resolver.Coherence.{KeepsCache, cache_rules}
use obs_operator.Provider.Resolver.Building.{
  BuildsClients, IsBuiltFor, IsBuilt, resolve_provider_config_object-KeepsCache,
  invalidate_provider-KeepsCache,
}
use obs_operator.BucketController.Reconcile.{reconcile as reconcile_bucket_key}
use obs_operator.BucketController.Caching.Whole.{reconcile-KeepsCache}
use obs_operator.ProviderConfigController.Reconcile.{
  reconcile as reconcile_config_key, reconcile_config, reconcile_read, read_failed,
}
use obs_operator.ProviderConfigController.Reconcile.Invalidation.{reconcile_config-KeepsCache}

module _ (K : Services) where
  -- The worlds that the process comes to. It starts with a new cache; the API server and OBS change
  -- as they like between reconciles; a reconcile of a Bucket or of a ProviderConfig runs for any
  -- key.
  pub data Reach : World K → Type 0 where
    started : (s : K.State) → Reach (record { svc = s; cache = new_cache; trace = [] })
    changed : (w : World K) (s : K.State) → Reach w → Reach (record w { svc = s })
    bucket_reconciled :
        (w : World K) (fuel : ℕ) (key : NamespacedName)
        → Reach w
        → Reach (reconcile_bucket_key K true fuel key w).1
    config_reconciled :
        (w : World K) (key : NamespacedName) → Reach w → Reach (reconcile_config_key K true key w).1

  module _ (config_of : ObsClient → ObsConfig) (L : BuildsClients K config_of) where
    bucket_key-KeepsCache :
        (fuel : ℕ) (key : NamespacedName)
        → KeepsCache (IsBuilt K config_of L) (reconcile_bucket_key K true fuel key)
    bucket_key-KeepsCache fuel key =
        reconcile-KeepsCache (IsBuilt K config_of L) K
          (resolve_provider_config_object-KeepsCache K config_of L) fuel key

    config-KeepsCache :
        (c : ProviderConfig) → KeepsCache (IsBuilt K config_of L) (reconcile_config K c)
    config-KeepsCache c =
        reconcile_config-KeepsCache K (IsBuilt K config_of L)
          (resolve_provider_config_object-KeepsCache K config_of L)
          (invalidate_provider-KeepsCache K config_of L) c

    dropped-KeepsCache :
        (name : NamespacedName) → KeepsCache (IsBuilt K config_of L) (invalidate_provider K name)
    dropped-KeepsCache name = invalidate_provider-KeepsCache K config_of L name

    config_key-KeepsCache :
        (key : NamespacedName)
        → KeepsCache (IsBuilt K config_of L) (reconcile_config_key K true key)
    unfolding reconcile_config_key reconcile_read read_failed
    config_key-KeepsCache key = search (cache_rules, config-KeepsCache, dropped-KeepsCache) depth 10

    Reach-IsBuilt : (w : World K) → Reach w → IsBuilt K config_of L w.cache
    Reach-IsBuilt _ (started s) = tt
    Reach-IsBuilt _ (changed w s r) = Reach-IsBuilt w r
    Reach-IsBuilt _ (bucket_reconciled w fuel key r) =
        (bucket_key-KeepsCache fuel key).at w (Reach-IsBuilt w r)
    Reach-IsBuilt _ (config_reconciled w key r) =
        (config_key-KeepsCache key).at w (Reach-IsBuilt w r)

    -- In every world that the process comes to by reconciles of Buckets and ProviderConfigs in any
    -- order, whatever the services answer and however they change in between, the entry that the
    -- cache gives for a key carries the key's ProviderConfig, Secret, region and endpoint, and its
    -- OBS client was built from a configuration with the key's endpoint and region and with
    -- credentials of the key's hash, provided that `obs.New` gives a client of the configuration
    -- that it is given.
    pub Reach-IsBuiltFor :
        (w : World K) (key : CacheKey) (r : ResolvedClient)
        → Reach w
        → get w.cache key ≡ some r
        → IsBuiltFor K config_of key r
    Reach-IsBuiltFor w key r reach found =
        get-HeldIn (IsBuiltFor K config_of) w.cache key r (Reach-IsBuilt w reach) found
