-- ===== src/Provider/Cache/Ownership.antt =====
-- Who owns a client: the reconciler that built it until it is stored, then the cache, and nobody
-- once it is closed. The reconcilers run concurrently; each cache method is one step.
use obs_operator.Base.{◌+◌, ◌≤◌, ◌≡◌, refl, ap, none, some, List, [], ◌∷◌, ◌++◌, arith}
use obs_operator.Base.{Option-cases, inl, inr}
use obs_operator.Base.Dict.{lookup}
use obs_operator.Api.{NamespacedName, namespaced_name_eq}
use obs_operator.Services.{ObsClient}
use obs_operator.Provider.Cache.{
  CacheKey, Cache, Clients, set, set_over, invalidate_provider, new_resolved_client, cache_key_eq,
}
use obs_operator.Provider.Cache.Counts.{
  once, copies, copies-append, cached, cached_in, cached-insert_new, cached-insert_over,
  cached-erase,
}

-- `set` neither loses a client nor keeps one that it closes: what the cache held and the client
-- that it is given are what it holds afterwards and what it closes. A `nil` cache holds nothing.
pub cached-set :
    (c : ObsClient) (d : Clients) (key : CacheKey) (client : ObsClient)
    → cached_in c (set (some d) key client).1 + copies c (set (some d) key client).2
      ≡ cached c d + once c client
unfolding set set_over new_resolved_client
cached-set c d key client = elim (Option-cases (lookup key.provider_config d)) [
  | inl e ↦ ground (
    arith,
    cached-insert_new c key.provider_config
        (record { key = key; resolved = new_resolved_client key client }) d e,
  )
  | inr (old, e) ↦ ground (
    arith,
    cached-insert_over c key.provider_config
        (record { key = key; resolved = new_resolved_client key client }) old d e,
  )
]

-- `InvalidateProvider` closes what it takes from the cache, and nothing else.
pub cached-invalidate_provider :
    (c : ObsClient) (cache : Cache) (name : NamespacedName)
    → cached_in c (invalidate_provider cache name).0 + copies c (invalidate_provider cache name).1
      ≡ cached_in c cache
unfolding invalidate_provider
cached-invalidate_provider c none name = omega arith
cached-invalidate_provider c (some d) name = elim (Option-cases (lookup name d)) [
  | inl e ↦ ground arith
  | inr (old, e) ↦ ground (arith, cached-erase c name old d e)
]

-- The clients of the process. `made` is every client ever built, `pending` those that a reconciler
-- has built and not yet stored, `closed` those that were closed, once for each `Close`.
pub record Pool : Type 0 where
  pub clients : Clients
  pub pending : List ObsClient
  pub made : List ObsClient
  pub closed : List ObsClient

abbrev clients_of : Cache → Clients
clients_of none = []
clients_of (some d) = d

-- A new client is none of those made before; any reconciler may store its client or invalidate a
-- provider next.
pub data Step : Pool → Pool → Type 0 where
  build :
      (p : Pool) (c : ObsClient)
      → copies c p.made ≡ 0
      → Step p (record p { pending = c ∷ p.pending; made = c ∷ p.made })
  store :
      (p : Pool) (front back : List ObsClient) (key : CacheKey) (c : ObsClient)
      → p.pending ≡ front ++ c ∷ back
      → Step p (record p {
        clients = clients_of (set (some p.clients) key c).1;
        pending = front ++ back;
        closed = (set (some p.clients) key c).2 ++ p.closed;
      })
  invalidate :
      (p : Pool) (name : NamespacedName)
      → Step p (record p {
        clients = clients_of (invalidate_provider (some p.clients) name).0;
        closed = (invalidate_provider (some p.clients) name).1 ++ p.closed;
      })

pub data Reach : Pool → Type 0 where
  start : Reach (record { clients = []; pending = []; made = []; closed = [] })
  next : {p q : Pool} → Reach p → Step p q → Reach q

-- Every client that was made is in one place, once.
abbrev pub Accounted : Pool → ObsClient → Type 0
Accounted p c =
    (copies c p.pending + cached c p.clients + copies c p.closed ≡ copies c p.made)
    × (copies c p.made ≤ 1)

cached-clients_of :
    (c : ObsClient) (cache : Cache) → cached c (clients_of cache) ≡ cached_in c cache
cached-clients_of c none = refl
cached-clients_of c (some d) = refl

build-Accounted :
    (c d : ObsClient) (p : Pool)
    → copies d p.made ≡ 0
    → Accounted p c
    → Accounted (record p { pending = d ∷ p.pending; made = d ∷ p.made }) c
build-Accounted c d p fresh h = ground arith

Step-Accounted : {p q : Pool} (c : ObsClient) → Step p q → Accounted p c → Accounted q c
Step-Accounted c (build p d fresh) h = build-Accounted c d p fresh h
Step-Accounted c (store p front back key d e) h = omega (
  arith,
  copies-append c front (d ∷ back),
  copies-append c front back,
  copies-append c (set (some p.clients) key d).2 p.closed,
  cached-set c p.clients key d,
  cached-clients_of c (set (some p.clients) key d).1,
  ap (copies c) e,
)
Step-Accounted c (invalidate p name) h = omega (
  arith,
  copies-append c (invalidate_provider (some p.clients) name).1 p.closed,
  cached-invalidate_provider c (some p.clients) name,
  cached-clients_of c (invalidate_provider (some p.clients) name).0,
)

-- However the reconcilers interleave, every client that was ever built is either still with the
-- reconciler that built it, or in the cache, or closed: in exactly one of these, and once. So no
-- client leaks, none is closed twice, and none that the cache can hand out is closed.
pub Reach-Accounted : {p : Pool} (c : ObsClient) → Reach p → Accounted p c
Reach-Accounted c start = omega arith
Reach-Accounted c (next r s) = Step-Accounted c s (Reach-Accounted c r)
