-- ===== src/ProviderConfigController/Reconcile/Invalidation.antt =====
-- What the ProviderConfig reconciler leaves in the client cache.
use obs_operator.Base.{◌≡◌, refl, sym, ap, ◌∙◌, Option, none, some, ==_refl, String}
use mathlib.Core.Path.{subst}
use obs_operator.Errors.{GoError, Result, ok, err}
use obs_operator.Api.{NamespacedName, ProviderConfig, namespaced_name_eq, Condition}
use obs_operator.Services.{Services, patch_provider_config_status, list_buckets}
use obs_operator.Services.Action.{
  World, Action, fail, handle, read_world, set_cache, call, attempt, ◌>>=◌, ◌>>◌,
}
use obs_operator.Services.Run.{handle_ok, bind-eq-ok}
use obs_operator.Provider.Cache.{Cache, CacheKey, get, invalidate_provider as drop, ResolvedClient}
use obs_operator.Provider.Cache.Coherence.{IsCoherentCache, get-invalidate_provider}
use obs_operator.Provider.Resolver.{resolve_provider_config_object, invalidate_provider}
use obs_operator.Provider.Resolver.Coherence.{
  KeepsCache, KeepsCache-pure, KeepsCache-fail, KeepsCache-call, KeepsCache-handle, KeepsCache-if,
  KeepsCache-from_error, KeepsCache-on_error, KeepsCache-read_world, KeepsCache-close_clients,
  KeepsCoherence-invalidate_provider, resolve_provider_config_object-KeepsCoherence, cache_rules,
}
use obs_operator.ProviderConfigController.Reconcile.{
  next_status, status_changed, validation_error, validate_resolved, validate_provider_client,
  invalidate_on, update_status, reconcile_config, ready_condition, revision_of,
}

module _ (K : Services) where
  -- Writing the status leaves the cache alone.
  KeepsCache-update_status :
      {Q : Cache → Type 0} (c : ProviderConfig) (k : Condition) (r : String)
      → KeepsCache Q (update_status K c k r)
  unfolding update_status
  KeepsCache-update_status {Q = Q} c k r =
      KeepsCache-handle _ _ _ KeepsCache-read_world
        (λ w.
          let next = next_status K (K.now w.svc) c k r in
          KeepsCache-if {Q = Q} (status_changed K c.status next) _ _
            (KeepsCache-call {Q = Q} (
              patch_provider_config_status c
                (record c { status = record next { last_validation_time = some (K.now w.svc) } })))
            (KeepsCache-pure tt))
        KeepsCache-fail

  KeepsCache-validate_resolved :
      {Q : Cache → Type 0} (r : Result ResolvedClient) → KeepsCache Q (validate_resolved K r)
  unfolding validate_resolved validate_provider_client
  KeepsCache-validate_resolved {Q = Q} (ok r) =
      KeepsCache-handle _ _ _
        (KeepsCache-handle _ _ _
          (KeepsCache-handle _ _ _ KeepsCache-read_world (λ w. KeepsCache-from_error _)
            KeepsCache-fail)
          (λ _.
            KeepsCache-on_error {Q = Q} (λ e. err (validation_error e))
              (call K (list_buckets r.obs)) (KeepsCache-call {Q = Q} (list_buckets r.obs)))
          KeepsCache-fail)
        (λ _. KeepsCache-pure _) (λ e. KeepsCache-pure _)
  KeepsCache-validate_resolved (err e) = KeepsCache-pure _

  -- What resolutions and invalidations keep of the cache, the whole reconciliation keeps.
  module _ (Q : Cache → Type 0)
      (resolves : (c : ProviderConfig) → KeepsCache Q (resolve_provider_config_object K c))
      (invalidates : (n : NamespacedName) → KeepsCache Q (invalidate_provider K n)) where
    invalidate_on-KeepsCache :
        (e : Option GoError) (c : ProviderConfig) → KeepsCache Q (invalidate_on K e c)
    unfolding invalidate_on
    invalidate_on-KeepsCache none c = KeepsCache-pure _
    invalidate_on-KeepsCache (some e) c = invalidates _

    pub reconcile_config-KeepsCache : (c : ProviderConfig) → KeepsCache Q (reconcile_config K c)
    unfolding reconcile_config
    reconcile_config-KeepsCache c =
        search
          (
            cache_rules, resolves, KeepsCache-validate_resolved, invalidate_on-KeepsCache,
            KeepsCache-update_status,
          )
          depth 10

  -- The name under which a configuration's client is cached.
  abbrev pub name_of : ProviderConfig → NamespacedName
  name_of c = record { namespace = c.namespace; name = c.name }

  -- No client of a provider is in the cache.
  abbrev pub HasNoClient : NamespacedName → Cache → Type 0
  HasNoClient name cache = (key : CacheKey) → key.provider_config ≡ name → get cache key ≡ none

  invalidate_provider-HasNoClient :
      (name : NamespacedName) (w : World K)
      → IsCoherentCache w.cache
      → HasNoClient name (invalidate_provider K name w).1.cache
  unfolding invalidate_provider handle read_world set_cache
  invalidate_provider-HasNoClient name w h key at =
      (KeepsCache-close_clients {Q = λ c. get c key ≡ none} (drop w.cache name).1).at
        (record w { cache = (drop w.cache name).0 })
        (get-invalidate_provider w.cache name key h ∙ rw (at, ==_refl name) refl)

  -- What holds of the cache behind the first part of a block and is kept by the rest.
  cache-behind :
      {A B : Type 0} (Q : Cache → Type 0) (m : Action K A) (f : A → Action K B) (w : World K)
      → Q (m w).1.cache
      → ((a : A) → KeepsCache Q (f a))
      → Q ((m >>= f) w).1.cache
  unfolding handle
  cache-behind Q m f w q keeps =
      (KeepsCache-handle {Q = Q} (λ (u : World K). m w) f fail (record { at = λ u x. q }) keeps
          KeepsCache-fail).at
        (m w).1 q

  reconcile_config-HasNoClient :
      (c : ProviderConfig) (w : World K) (e : GoError)
      → IsCoherentCache w.cache
      → ((attempt (resolve_provider_config_object K c) >>= validate_resolved K) w).0 ≡ ok (some e)
      → HasNoClient (name_of c) (reconcile_config K c w).1.cache
  unfolding reconcile_config invalidate_on
  reconcile_config-HasNoClient c w e h failed =
      let resolve = attempt (resolve_provider_config_object K c) in
      let (r, got, there) = bind-eq-ok resolve (validate_resolved K) w failed in
      let w1 = (resolve w).1 in
      let w2 = (validate_resolved K r w1).1 in
      let kept =
        subst (λ (u : Result (Option GoError) × World K). IsCoherentCache u.1.cache) there
          ((KeepsCache-handle {Q = IsCoherentCache} resolve (validate_resolved K) fail
              (KeepsCache-handle _ _ _ (resolve_provider_config_object-KeepsCoherence c)
                (λ a. KeepsCache-pure (ok a)) (λ x. KeepsCache-pure (err x)))
              (λ a. KeepsCache-validate_resolved a) KeepsCache-fail).at
            w h) in
      let status =
        λ (v : Option GoError). update_status K c (ready_condition K c v) (revision_of K r) in
      let tail = λ (v : Option GoError). invalidate_on K v c >> status v in
      let step1 =
        handle_ok resolve
          (λ x. validate_resolved K x >>= λ v.
            invalidate_on K v c >> update_status K c (ready_condition K c v) (revision_of K x))
          fail w got in
      let step2 =
        handle_ok (validate_resolved K r) tail fail w1
          (sym (ap (λ (u : Result (Option GoError) × World K). u.0) there) ∙ failed) in
      subst (λ (u : Result (Unit {0}) × World K). HasNoClient (name_of c) u.1.cache)
        (sym (step1 ∙ step2))
        (cache-behind (HasNoClient (name_of c)) (invalidate_provider K (name_of c))
          (λ (x : Unit {0}). status (some e)) w2
          (invalidate_provider-HasNoClient (name_of c) w2 kept)
          (λ x. KeepsCache-update_status c (ready_condition K c (some e)) (revision_of K r)))

  -- A reconciliation of a ProviderConfig keeps a coherent cache coherent, whatever fails in it.
  pub reconcile_config-IsCoherentCache :
      (c : ProviderConfig) (w : World K)
      → IsCoherentCache w.cache
      → IsCoherentCache (reconcile_config K c w).1.cache
  reconcile_config-IsCoherentCache c w h =
      (reconcile_config-KeepsCache IsCoherentCache resolve_provider_config_object-KeepsCoherence
          KeepsCoherence-invalidate_provider c).at
        w h

  -- When the resolution or the validation of a ProviderConfig fails, then behind its reconciliation
  -- a cache that was coherent finds no client under any key of that configuration.
  pub get-reconcile_config :
      (c : ProviderConfig) (w : World K) (e : GoError) (key : CacheKey)
      → IsCoherentCache w.cache
      → ((attempt (resolve_provider_config_object K c) >>= validate_resolved K) w).0 ≡ ok (some e)
      → key.provider_config ≡ name_of c
      → get (reconcile_config K c w).1.cache key ≡ none
  get-reconcile_config c w e key h failed at = reconcile_config-HasNoClient c w e h failed key at
