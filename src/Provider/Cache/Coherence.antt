-- ===== src/Provider/Cache/Coherence.antt =====
-- What the cache answers: an entry is found by the whole key that it was stored under.
use obs_operator.Base.{◌≡◌, refl, ap, ◌∙◌, false, Option, none, some, [], ◌∷◌, arith}
use obs_operator.Base.{◌==◌, Option-cases, Bool-cases, eq-of-==, inl, inr, if◌then◌else◌}
use mathlib.Core.Path.{subst}
use obs_operator.Base.Dict.{lookup, insert, erase, lookup-insert, lookup-erase_ne}
use obs_operator.Api.{NamespacedName, namespaced_name_eq}
use obs_operator.Services.{ObsClient}
use obs_operator.Provider.Cache.{
  CacheKey, ResolvedClient, CacheEntry, Cache, Clients, get, set, set_over, invalidate_provider,
  new_resolved_client, cache_key_eq,
}

-- A client stored under a key carries what the key says, and is not marked as cached.
abbrev pub FromKey : CacheKey → ResolvedClient → Type 0
FromKey key r =
    (r.provider_config ≡ key.provider_config)
    × (r.credentials_secret ≡ key.credentials_secret)
    × (r.region ≡ key.region)
    × (r.endpoint ≡ key.endpoint)
    × (r.from_cache ≡ false)

-- Each entry stands under its key's provider, once, with a client of its key.
abbrev pub IsCoherent : Clients → Type 0
IsCoherent [] = Unit
IsCoherent ((k, entry) ∷ d) =
    (entry.key.provider_config ≡ k)
    × FromKey entry.key entry.resolved
    × (lookup k d ≡ none)
    × IsCoherent d

abbrev pub IsCoherentCache : Cache → Type 0
IsCoherentCache none = Unit
IsCoherentCache (some d) = IsCoherent d

abbrev IsEntry : NamespacedName → CacheEntry → Type 0
IsEntry k entry = (entry.key.provider_config ≡ k) × FromKey entry.key entry.resolved

lookup-IsEntry :
    (k : NamespacedName) (d : Clients) (entry : CacheEntry)
    → IsCoherent d
    → lookup k d ≡ some entry
    → IsEntry k entry
unfolding lookup
lookup-IsEntry k [] entry h e = cc
lookup-IsEntry k (x ∷ d) entry h e = ground (arith, lookup-IsEntry k d entry h.3)

insert-IsCoherent :
    (k : NamespacedName) (entry : CacheEntry) (d : Clients)
    → IsEntry k entry
    → IsCoherent d
    → IsCoherent (insert k entry d)
unfolding insert lookup
insert-IsCoherent k entry [] h c = (h.0, h.1, refl, tt)
insert-IsCoherent k entry (x ∷ d) h c =
    ground (arith, insert-IsCoherent k entry d h c.3, lookup-insert x.0 k entry d)

erase-IsCoherent : (k : NamespacedName) (d : Clients) → IsCoherent d → IsCoherent (erase k d)
unfolding erase lookup
erase-IsCoherent k [] c = tt
erase-IsCoherent k (x ∷ d) c = ground (arith, erase-IsCoherent k d c.3, lookup-erase_ne x.0 k d)

lookup-erase_coherent :
    (k : NamespacedName) (d : Clients) → IsCoherent d → lookup k (erase k d) ≡ none
unfolding erase lookup
lookup-erase_coherent k [] c = refl
lookup-erase_coherent k (x ∷ d) c = ground (arith, lookup-erase_coherent k d c.3)

-- Both methods that write keep the cache coherent.
pub set-IsCoherent :
    (cache : Cache) (key : CacheKey) (client : ObsClient)
    → IsCoherentCache cache
    → IsCoherentCache (set cache key client).1
unfolding set set_over new_resolved_client
set-IsCoherent none key client c = tt
set-IsCoherent (some d) key client c =
    let entry : CacheEntry = record { key = key; resolved = new_resolved_client key client } in
    let inserted =
      insert-IsCoherent key.provider_config entry d (refl, (refl, refl, refl, refl, refl)) c in
    elim (Option-cases (lookup key.provider_config d)) [
      | inl e ↦ ground arith
      | inr (old, e) ↦ ground arith
    ]

pub invalidate_provider-IsCoherent :
    (cache : Cache) (name : NamespacedName)
    → IsCoherentCache cache
    → IsCoherentCache (invalidate_provider cache name).0
unfolding invalidate_provider
invalidate_provider-IsCoherent none name c = tt
invalidate_provider-IsCoherent (some d) name c = elim (Option-cases (lookup name d)) [
  | inl e ↦ ground arith
  | inr (old, e) ↦ ground (arith, erase-IsCoherent name d c)
]

-- What `set` returns, as it is stored.
abbrev pub stored : ResolvedClient → ResolvedClient
stored r = record r { from_cache = false }

abbrev found : CacheKey → CacheKey → ResolvedClient → Option ResolvedClient → Option ResolvedClient
found key other r before =
    if other.provider_config == key.provider_config
    then (if key == other then some (stored r) else none)
    else before

get-insert :
    (d : Clients) (key other : CacheKey) (r : ResolvedClient)
    → r.from_cache ≡ false
    → get (some (insert key.provider_config (record { key = key; resolved = r }) d)) other
      ≡ found key other r (get (some d) other)
unfolding get
get-insert d key other r fresh = ground (
  arith,
  lookup-insert other.provider_config key.provider_config (record { key = key; resolved = r }) d,
)

get_kept :
    (d : Clients) (other : CacheKey) (old : CacheEntry)
    → lookup old.key.provider_config d ≡ some old
    → FromKey old.key old.resolved
    → get (some d) other ≡ found old.key other old.resolved (get (some d) other)
unfolding get
get_kept d other old e f = ground arith

get-set_over :
    (d : Clients) (key other : CacheKey) (client : ObsClient) (old : CacheEntry)
    → lookup key.provider_config d ≡ some old
    → IsEntry key.provider_config old
    → get (set_over old d key client).1 other
      ≡ found key other (set_over old d key client).0 (get (some d) other)
unfolding set_over
get-set_over d key other client old e (k, f) = elim (Bool-cases (old.key == key)) [
  | inl same ↦
      rw (same, set_over)
        (subst (λ j. get (some d) other ≡ found j other old.resolved (get (some d) other))
          (eq-of-== old.key key same) (get_kept d other old (ap (λ n. lookup n d) k ∙ e) f))
  | inr differs ↦
      rw (differs, set_over)
        (get-insert d key other (new_resolved_client key client)
          (unfold new_resolved_client in refl))
]

-- In a coherent cache, `get` behind a `set` finds the client that `set` returned under the key
-- that was set, finds nothing under another key of the same provider (other credentials, another
-- region or endpoint, a new object of the same name), and finds what it found before under the
-- keys of other providers.
pub get-set :
    (d : Clients) (key other : CacheKey) (client : ObsClient)
    → IsCoherent d
    → get (set (some d) key client).1 other ≡ (
        if other.provider_config == key.provider_config
        then (if key == other then some (stored (set (some d) key client).0) else none)
        else get (some d) other)
unfolding get set set_over new_resolved_client
get-set d key other client c = elim (Option-cases (lookup key.provider_config d)) [
  | inl e ↦ rw (e, set) (get-insert d key other (new_resolved_client key client) refl)
  | inr (old, e) ↦ rw (e, set) (get-set_over d key other client old e (lookup-IsEntry _ d old c e))
]

-- In a coherent cache, `get` behind `InvalidateProvider` finds nothing under any key of that
-- provider, and what it found before under the keys of others.
pub get-invalidate_provider :
    (cache : Cache) (name : NamespacedName) (key : CacheKey)
    → IsCoherentCache cache
    → get (invalidate_provider cache name).0 key
      ≡ (if key.provider_config == name then none else get cache key)
unfolding get invalidate_provider
get-invalidate_provider none name key c = ground arith
get-invalidate_provider (some d) name key c = elim (Option-cases (lookup name d)) [
  | inl e ↦ ground arith
  | inr (old, e) ↦
      ground (arith, lookup-erase_coherent name d c, lookup-erase_ne key.provider_config name d)
]

-- In a coherent cache, what `get` finds carries the key's provider, credentials Secret, region and
-- endpoint.
pub get-FromKey :
    (cache : Cache) (key : CacheKey) (r : ResolvedClient)
    → IsCoherentCache cache
    → get cache key ≡ some r
    → FromKey key r
unfolding get
get-FromKey none key r c h = cc
get-FromKey (some d) key r c h = elim (Option-cases (lookup key.provider_config d)) [
  | inl e ↦ ground arith
  | inr (entry, e) ↦ ground (arith, lookup-IsEntry key.provider_config d entry c e)
]
