-- ===== src/Provider/Cache/Pointers.antt =====
-- The cache of internal/provider/cache.go with its pointers: a stored `*ResolvedClient` is an
-- address, and what `get` and `set` return is a pointer that the caller writes through. The
-- definitions of `Provider.Cache` are the same methods on values.
pub mod Entries
pub mod Private
pub mod Storing
pub mod Erasing
pub mod Uses
use obs_operator.Base.{
  ℕ, String, Bool, true, false, Option, none, some, List, [], ◌∷◌, ◌==◌, if◌then◌else◌,
}
use obs_operator.Base.Dict.{Dict, lookup, insert, erase}
use obs_operator.Api.{NamespacedName, namespaced_name_eq}
use obs_operator.Services.{ObsClient}
use obs_operator.DeepCopy.Memory.{
  Heap, Run, Slot, pure, ◌>>=◌, ◌>>◌, load, new, put, renew, unless_nil,
}
use obs_operator.Provider.Cache.{CacheKey, ResolvedClient, new_resolved_client, cache_key_eq}

-- `cacheEntry`
pub record PointerEntry : Type 0 where
  pub key : CacheKey
  pub resolved : ℕ

abbrev pub Pointers : Type 0
Pointers = Dict NamespacedName PointerEntry

abbrev no_name : NamespacedName
no_name = record { namespace = ""; name = "" }

-- The heap holds resolved clients alone.
abbrev pub client_slot : Slot ResolvedClient ResolvedClient
client_slot = record {
  hold = λ x. x;
  held = some;
  zero_value = record {
    obs = record { handle = 0 };
    provider_config = no_name;
    credentials_secret = no_name;
    region = "";
    endpoint = "";
    provider_revision = "";
    from_cache = false;
  };
}

abbrev pub Client : Type 0 → Type 0
Client A = Run ResolvedClient A

-- `cloneResolvedClient`
unfoldable pub clone_resolved_client : Option ℕ → Client (Option ℕ)
clone_resolved_client = unless_nil (renew client_slot pure)

-- `&ResolvedClient{...}`
unfoldable pub allocate : ResolvedClient → Client ℕ
allocate x = do out ← new client_slot; put client_slot out x; pure out

unfoldable pub get_pointer : Option Pointers → CacheKey → Client (Option ℕ)
unfolding lookup namespaced_name_eq cache_key_eq
get_pointer none key = pure none
get_pointer (some clients) key = elim (lookup key.provider_config clients) [
  | none ↦ pure none
  | some entry ↦ if entry.key == key then clone_resolved_client (some entry.resolved) else pure none
]

-- The pointer that is returned, the map behind the call, and the clients that are closed.
abbrev pub Stored : Type 0
Stored = Option ℕ × Option Pointers × List ObsClient

-- `c.clients[key.ProviderConfig] = ...`, and the clone that is returned.
unfoldable pub store_pointer : Pointers → CacheKey → ℕ → List ObsClient → Client Stored
unfolding insert namespaced_name_eq
store_pointer clients key resolved closed = do
  copy ← clone_resolved_client (some resolved)
  pure (
    copy,
    some (insert key.provider_config (record { key = key; resolved = resolved }) clients),
    closed,
  )

-- `set` when the map has `existing` under the provider's name.
unfoldable pub set_pointer_over : PointerEntry → Pointers → CacheKey → ObsClient → ℕ → Client Stored
unfolding cache_key_eq
set_pointer_over existing clients key client resolved =
    if existing.key == key
    then (do
      cached ← renew client_slot pure existing.resolved
      x ← load client_slot cached
      put client_slot cached (record x { from_cache = true })
      pure (some cached, some clients, client ∷ []))
    else (do
      old ← load client_slot existing.resolved
      store_pointer clients key resolved (old.obs ∷ []))

unfoldable pub set_found : Option PointerEntry → Pointers → CacheKey → ObsClient → ℕ → Client Stored
set_found none clients key client resolved = store_pointer clients key resolved []
set_found (some existing) clients key client resolved =
    set_pointer_over existing clients key client resolved

unfoldable pub set_pointer : Option Pointers → CacheKey → ObsClient → Client Stored
unfolding lookup namespaced_name_eq
set_pointer none key client = do
  resolved ← allocate (new_resolved_client key client)
  pure (some resolved, none, [])
set_pointer (some clients) key client = do
  resolved ← allocate (new_resolved_client key client)
  set_found (lookup key.provider_config clients) clients key client resolved

unfoldable pub invalidate_found :
    Option PointerEntry → Pointers → NamespacedName → Client (Option Pointers × List ObsClient)
unfolding erase namespaced_name_eq
invalidate_found none clients name = pure (some clients, [])
invalidate_found (some entry) clients name = do
  x ← load client_slot entry.resolved
  pure (some (erase name clients), x.obs ∷ [])

-- `InvalidateProvider`
unfoldable pub invalidate_pointer :
    Option Pointers → NamespacedName → Client (Option Pointers × List ObsClient)
unfolding lookup namespaced_name_eq
invalidate_pointer none name = pure (none, [])
invalidate_pointer (some clients) name = invalidate_found (lookup name clients) clients name
