-- ===== src/Provider/Cache/Counts.antt =====
-- How often a client stands in a list and in the cache.
use obs_operator.Base.{ℕ, ◌+◌, ◌≡◌, none, some, List, [], ◌∷◌, ◌++◌, arith, Eq, ◌==◌}
use obs_operator.Base.{if◌then◌else◌}
use native.Mathlib.Decide.{ℕ_discrete}
use obs_operator.Base.Dict.{lookup, insert, erase}
use obs_operator.Api.{NamespacedName, namespaced_name_eq}
use obs_operator.Services.{ObsClient}
use obs_operator.Provider.Cache.{CacheEntry, Clients, Cache}

ObsClient-discrete : Discrete ObsClient
ObsClient-discrete = hlevel ℕ_discrete

instance unfoldable pub obs_client_eq : Eq ObsClient
unfolding ObsClient-discrete ℕ_discrete
obs_client_eq = record { dec = ObsClient-discrete }

abbrev pub once : ObsClient → ObsClient → ℕ
once c d = if c == d then 1 else 0

abbrev pub copies : ObsClient → List ObsClient → ℕ
copies c [] = 0
copies c (d ∷ ds) = once c d + copies c ds

pub copies-append :
    (c : ObsClient) (xs ys : List ObsClient) → copies c (xs ++ ys) ≡ copies c xs + copies c ys
copies-append c [] ys = omega arith
copies-append c (x ∷ xs) ys = omega (arith, copies-append c xs ys)

-- In the entries of the map.
abbrev pub cached : ObsClient → Clients → ℕ
cached c [] = 0
cached c ((_, entry) ∷ d) = once c entry.resolved.obs + cached c d

abbrev pub cached_in : ObsClient → Cache → ℕ
cached_in c none = 0
cached_in c (some d) = cached c d

pub cached-insert_new :
    (c : ObsClient) (k : NamespacedName) (v : CacheEntry) (d : Clients)
    → lookup k d ≡ none
    → cached c (insert k v d) ≡ cached c d + once c v.resolved.obs
unfolding lookup insert
cached-insert_new c k v [] h = omega arith
cached-insert_new c k v (x ∷ d) h = ground (arith, cached-insert_new c k v d)

pub cached-insert_over :
    (c : ObsClient) (k : NamespacedName) (v old : CacheEntry) (d : Clients)
    → lookup k d ≡ some old
    → cached c (insert k v d) + once c old.resolved.obs ≡ cached c d + once c v.resolved.obs
unfolding lookup insert
cached-insert_over c k v old [] h = cc
cached-insert_over c k v old (x ∷ d) h = ground (arith, cached-insert_over c k v old d)

pub cached-erase :
    (c : ObsClient) (k : NamespacedName) (old : CacheEntry) (d : Clients)
    → lookup k d ≡ some old
    → cached c (erase k d) + once c old.resolved.obs ≡ cached c d
unfolding lookup erase
cached-erase c k old [] h = cc
cached-erase c k old (x ∷ d) h = ground (arith, cached-erase c k old d)
