-- ===== src/Provider/Cache.antt =====
-- The client cache, internal/provider/cache.go. Each method holds the mutex for all that it does
-- to the map, so a method is one step on the cache. A `nil` cache is `none`. A method that closes
-- clients returns them, in order; the caller runs `Close`.
pub mod Counts
pub mod Ownership
pub mod Coherence
pub mod Held
pub mod Pointers
use obs_operator.Base.{ℕ, String, Bool, true, false, Option, none, some, List, [], ◌∷◌, Eq, ◌==◌}
use obs_operator.Base.{string_discrete, length, if◌then◌else◌}
use obs_operator.Base.Dict.{Dict, lookup, insert, erase}
use obs_operator.Api.{NamespacedName, namespaced_name_eq}
use obs_operator.Services.{ObsClient}

-- `cacheKey`
pub record CacheKey : Type 0 where
  pub provider_config : NamespacedName
  pub provider_uid : String
  pub credentials_secret : NamespacedName
  pub secret_uid : String
  pub credentials_hash : String
  pub region : String
  pub endpoint : String

CacheKey-discrete : Discrete CacheKey
CacheKey-discrete = hlevel string_discrete

instance unfoldable pub cache_key_eq : Eq CacheKey
unfolding CacheKey-discrete string_discrete
cache_key_eq = record { dec = CacheKey-discrete }

-- `ResolvedClient`
pub record ResolvedClient : Type 0 where
  pub obs : ObsClient
  pub provider_config : NamespacedName
  pub credentials_secret : NamespacedName
  pub region : String
  pub endpoint : String
  pub provider_revision : String
  pub from_cache : Bool

-- `cacheEntry`
pub record CacheEntry : Type 0 where
  pub key : CacheKey
  pub resolved : ResolvedClient

abbrev pub Clients : Type 0
Clients = Dict NamespacedName CacheEntry

abbrev pub Cache : Type 0
Cache = Option Clients

-- `NewCache`
abbrev pub new_cache : Cache
new_cache = some []

-- `newResolvedClient`
unfoldable pub new_resolved_client : CacheKey → ObsClient → ResolvedClient
new_resolved_client key client = record {
  obs = client;
  provider_config = key.provider_config;
  credentials_secret = key.credentials_secret;
  region = key.region;
  endpoint = key.endpoint;
  provider_revision = "";
  from_cache = false;
}

-- `get`. The clone that it returns is a value here.
unfoldable pub get : Cache → CacheKey → Option ResolvedClient
unfolding lookup namespaced_name_eq cache_key_eq
get none key = none
get (some clients) key = elim (lookup key.provider_config clients) [
  | none ↦ none
  | some entry ↦ if entry.key == key then some entry.resolved else none
]

-- `set` when the map has `existing` under the provider's name.
unfoldable pub set_over :
    CacheEntry → Clients → CacheKey → ObsClient → ResolvedClient × Cache × List ObsClient
unfolding insert namespaced_name_eq cache_key_eq new_resolved_client
set_over existing clients key client =
    if existing.key == key
    then (record (existing.resolved) { from_cache = true }, some clients, client ∷ [])
    else (
      new_resolved_client key client,
      some (
          insert key.provider_config
            (record { key = key; resolved = new_resolved_client key client }) clients),
      existing.resolved.obs ∷ [],
    )

-- `set`
unfoldable pub set : Cache → CacheKey → ObsClient → ResolvedClient × Cache × List ObsClient
unfolding lookup insert namespaced_name_eq new_resolved_client set_over
set none key client = (new_resolved_client key client, none, [])
set (some clients) key client = elim (lookup key.provider_config clients) [
  | some existing ↦ set_over existing clients key client
  | none ↦ (
    new_resolved_client key client,
    some (
        insert key.provider_config (record { key = key; resolved = new_resolved_client key client })
          clients),
    [],
  )
]

-- `InvalidateProvider`
unfoldable pub invalidate_provider : Cache → NamespacedName → Cache × List ObsClient
unfolding lookup erase namespaced_name_eq
invalidate_provider none name = (none, [])
invalidate_provider (some clients) name = elim (lookup name clients) [
  | none ↦ (some clients, [])
  | some entry ↦ (some (erase name clients), entry.resolved.obs ∷ [])
]

-- `Len`
unfoldable pub len : Cache → ℕ
len none = 0
len (some clients) = length clients
