-- ===== src/Provider/Resolver/Coherence.antt =====
-- How the resolver touches the cache, by `set` and `InvalidateProvider`.
use obs_operator.Base.{Bool, true, false, Option, none, some, List, [], ◌∷◌, if◌then◌else◌}
use obs_operator.Errors.{GoError, Result, ok, err}
use obs_operator.Api.{NamespacedName, ProviderConfig}
use obs_operator.Services.{Services, ObsClient, Request, ObsConfig, close_client}
use obs_operator.Services.Action.{
  World, Action, pure, fail, handle, from_result, from_error, on_error, read_world, set_cache, call,
  close_clients,
}
use obs_operator.Provider.Cache.{Cache, CacheKey, ResolvedClient, set, invalidate_provider as drop}
use obs_operator.Provider.Cache.Coherence.{
  IsCoherentCache, set-IsCoherent, invalidate_provider-IsCoherent,
}
use obs_operator.Provider.Resolver.{
  cache_get, cache_set, build_client, client_for, resolve_provider_config_object,
  invalidate_provider,
}

-- What is true of the cache stays true, whether the action returns a value or an error.
pub record KeepsCache {K : Services} {A : Type 0} (Q : Cache → Type 0) (m : Action K A)
    : Type 0 where
  pub at : (w : World K) → Q w.cache → Q (m w).1.cache

abbrev pub KeepsCoherence : {K : Services} {A : Type 0} → Action K A → Type 0
KeepsCoherence m = KeepsCache IsCoherentCache m

module _ {K : Services} {Q : Cache → Type 0} where
  pub KeepsCache-pure : {A : Type 0} (a : A) → KeepsCache {K = K} Q (pure a)
  unfolding pure
  KeepsCache-pure a = record { at = λ w h. h }

  pub KeepsCache-fail : {A : Type 0} (e : GoError) → KeepsCache {K = K} {A = A} Q (fail e)
  unfolding fail
  KeepsCache-fail e = record { at = λ w h. h }

  pub KeepsCache-call : (q : Request) → KeepsCache Q (call K q)
  unfolding call
  KeepsCache-call q = record { at = λ w h. h }

  pub KeepsCache-from_result : {A : Type 0} (r : Result A) → KeepsCache {K = K} Q (from_result r)
  unfolding from_result
  KeepsCache-from_result (ok a) = KeepsCache-pure a
  KeepsCache-from_result (err e) = KeepsCache-fail e

  pub KeepsCache-handle :
      {A B : Type 0} (m : Action K A) (f : A → Action K B) (g : GoError → Action K B)
      → KeepsCache Q m
      → ((a : A) → KeepsCache Q (f a))
      → ((e : GoError) → KeepsCache Q (g e))
      → KeepsCache Q (handle m f g)
  unfolding handle
  KeepsCache-handle {A} {B} m f g hm hf hg = record { at = λ w h. go (m w).0 (m w).1 (hm.at w h) }
    where
      go : (r : Result A) (w : World K) → Q w.cache → Q (handle {K = K} (λ _. (r, w)) f g w).1.cache
      go (ok a) w h = (hf a).at w h
      go (err e) w h = (hg e).at w h

  pub KeepsCache-close_clients : (cs : List ObsClient) → KeepsCache Q (close_clients K cs)
  unfolding close_clients
  KeepsCache-close_clients [] = KeepsCache-pure tt
  KeepsCache-close_clients (c ∷ cs) =
      KeepsCache-handle _ _ _
        (KeepsCache-handle _ _ _ (KeepsCache-call (close_client c)) (λ a. KeepsCache-pure (ok a))
          (λ e. KeepsCache-pure (err e)))
        (λ _. KeepsCache-close_clients cs) KeepsCache-fail

  pub KeepsCache-from_error : (e : Option GoError) → KeepsCache {K = K} Q (from_error e)
  unfolding from_error
  KeepsCache-from_error none = KeepsCache-pure tt
  KeepsCache-from_error (some e) = KeepsCache-fail e

  pub KeepsCache-on_error :
      {A : Type 0} (f : GoError → Result A) (m : Action K A)
      → KeepsCache Q m
      → KeepsCache Q (on_error f m)
  KeepsCache-on_error f m h =
      KeepsCache-handle m pure (λ e. from_result (f e)) h (λ a. KeepsCache-pure a)
        (λ e. KeepsCache-from_result (f e))

  pub KeepsCache-read_world : KeepsCache {K = K} Q read_world
  unfolding read_world
  KeepsCache-read_world = record { at = λ w h. h }

  pub KeepsCache-if :
      {A : Type 0} (b : Bool) (m n : Action K A)
      → KeepsCache Q m
      → KeepsCache Q n
      → KeepsCache Q (if b then m else n)
  KeepsCache-if true m n hm hn = hm
  KeepsCache-if false m n hm hn = hn

module _ {K : Services} where
  pub KeepsCoherence-cache_get : (key : CacheKey) → KeepsCoherence (cache_get K key)
  unfolding cache_get read_world handle pure
  KeepsCoherence-cache_get key = record { at = λ w h. h }

  pub KeepsCoherence-cache_set :
      (key : CacheKey) (client : ObsClient) → KeepsCoherence (cache_set K key client)
  unfolding cache_set read_world set_cache handle
  KeepsCoherence-cache_set key client = record {
    at = λ w h.
        let (r, c, closed) = set w.cache key client in
        (KeepsCache-handle {Q = IsCoherentCache} (close_clients K closed)
            (λ (u : Unit {0}). pure {K = K} r) fail (KeepsCache-close_clients closed)
            (λ _. KeepsCache-pure r) KeepsCache-fail).at
          (record w { cache = c }) (set-IsCoherent w.cache key client h);
  }

  pub KeepsCoherence-invalidate_provider :
      (name : NamespacedName) → KeepsCoherence (invalidate_provider K name)
  unfolding invalidate_provider read_world set_cache handle
  KeepsCoherence-invalidate_provider name = record {
    at = λ w h.
        let (c, closed) = drop w.cache name in
        (KeepsCache-close_clients {Q = IsCoherentCache} closed).at (record w { cache = c })
          (invalidate_provider-IsCoherent w.cache name h);
  }

pub ruleset cache_rules = (
  KeepsCache-pure, KeepsCache-fail, KeepsCache-call, KeepsCache-from_result, KeepsCache-handle,
  KeepsCache-close_clients, KeepsCache-read_world, KeepsCache-if,
)

pub ruleset coherence_rules = (
  KeepsCache-pure, KeepsCache-fail, KeepsCache-call, KeepsCache-from_result, KeepsCache-handle,
  KeepsCache-close_clients, KeepsCoherence-cache_get, KeepsCoherence-cache_set,
  KeepsCoherence-invalidate_provider,
)

module _ {K : Services} where
  KeepsCoherence-client_for :
      (hit : Option ResolvedClient) (key : CacheKey) (config : ObsConfig) (revision : _)
      → KeepsCoherence (client_for K hit key config revision)
  unfolding client_for build_client
  KeepsCoherence-client_for none key config revision = search coherence_rules depth 8
  KeepsCoherence-client_for (some r) key config revision = KeepsCache-pure _

  pub resolve_provider_config_object-KeepsCoherence :
      (config : ProviderConfig) → KeepsCoherence (resolve_provider_config_object K config)
  unfolding resolve_provider_config_object
  resolve_provider_config_object-KeepsCoherence config =
      search (coherence_rules, KeepsCoherence-client_for) depth 10

-- A resolution keeps a coherent cache coherent, whether it gives a client or an error.
pub resolve_provider_config_object-IsCoherentCache :
    (K : Services) (config : ProviderConfig) (w : World K)
    → IsCoherentCache w.cache
    → IsCoherentCache (resolve_provider_config_object K config w).1.cache
resolve_provider_config_object-IsCoherentCache K config w h =
    (resolve_provider_config_object-KeepsCoherence config).at w h
