-- ===== src/Provider/Resolver/Hits.antt =====
-- A second resolution of the same configuration.
use obs_operator.Base.{
  arith, String, ◌≡◌, refl, sym, ap, ◌∙◌, true, Option, none, some, inl, inr, ==_refl,
}
use mathlib.Core.Path.{subst}
use obs_operator.Base.Text.{trim_space}
use obs_operator.Errors.{GoError, Result, ok, err, credentials_secret_not_found}
use obs_operator.Api.{NamespacedName, ProviderConfig, Secret, namespaced_name_eq}
use obs_operator.Services.{Services, ObsClient, ObsConfig, new_client, get_secret}
use obs_operator.Services.Action.{
  World, Action, pure, fail, handle, wrapped, from_result, read_world, set_cache, call,
  close_clients, on_error, ◌>>=◌,
}
use obs_operator.Services.Run.{ok_inj, bind-eq-ok, world-wrapped, world-on_error, on_error-eq-ok}
use obs_operator.Provider.Cache.{Cache, Clients, CacheKey, ResolvedClient, get, set, cache_key_eq}
use obs_operator.Provider.Cache.Coherence.{IsCoherent, get-set, stored}
use obs_operator.Provider.Credentials.{
  Credentials, credentials_from_secret, observed_provider_revision,
}
use obs_operator.Provider.Endpoint.{resolve_endpoint}
use obs_operator.Provider.Resolver.{
  not_found_as, secret_key, cache_key, obs_config, cache_get, cache_set, build_client, client_for,
  resolve_provider_config_object,
}
use obs_operator.Provider.Resolver.Coherence.{
  KeepsCache-close_clients, KeepsCache-handle, KeepsCache-pure, KeepsCache-fail,
}

module _ (K : Services) where
  -- A cache in which the key is found with that OBS client.
  abbrev Holds : CacheKey → ObsClient → Cache → Type 0
  Holds key c cache = (r : ResolvedClient) × (get cache key ≡ some r) × (r.obs ≡ c)

  get-set_same :
      (cache : Cache) (d : Clients) (key : CacheKey) (client : ObsClient)
      → cache ≡ some d
      → IsCoherent d
      → get (set cache key client).1 key ≡ some (stored (set cache key client).0)
  get-set_same cache d key client is coh =
      subst (λ (c : Cache). get (set c key client).1 key ≡ some (stored (set c key client).0))
        (sym is) (get-set d key key client coh ∙ rw (==_refl key.provider_config, ==_refl key) refl)

  -- What `set` stored is held, whichever client that is.
  cache_set-Holds :
      (key : CacheKey) (client : ObsClient) (w : World K) (d : Clients) (r : ResolvedClient)
      → w.cache ≡ some d
      → IsCoherent d
      → (cache_set K key client w).0 ≡ ok r
      → Holds key r.obs (cache_set K key client w).1.cache
  unfolding cache_set read_world set_cache handle pure
  cache_set-Holds key client w d r is coh h =
      let (s, cache, closed) = set w.cache key client in
      let u = record w { cache = cache } in
      let (v, e1, e2) =
        bind-eq-ok (close_clients K closed) (λ (x : Unit {0}). pure {K = K} s) u h in
      let kept =
        (KeepsCache-handle {Q = λ x. get x key ≡ some (stored s)} (close_clients K closed)
            (λ (x : Unit {0}). pure {K = K} s) fail (KeepsCache-close_clients closed)
            (λ x. KeepsCache-pure s) KeepsCache-fail).at
          u (get-set_same w.cache d key client is coh) in
      (
        stored s,
        kept,
        ap (λ x. x.obs)
            (ok_inj s r (sym (ap (λ (x : Result ResolvedClient × World K). x.0) e2) ∙ h)),
      )

  build_client-Holds :
      (key : CacheKey) (config : ObsConfig) (revision : String) (w : World K) (d : Clients)
      (r : ResolvedClient)
      → w.cache ≡ some d
      → IsCoherent d
      → (build_client K key config revision w).0 ≡ ok r
      → Holds key r.obs (build_client K key config revision w).1.cache
  unfolding build_client call pure
  build_client-Holds key config revision w d r is coh h =
      let make = call K (new_client config) in
      let rest = λ (c : ObsClient).
        cache_set K key c >>= λ x. pure {K = K} (record x { provider_revision = revision }) in
      let (c, e1, e2) = bind-eq-ok (wrapped "build OBS client: " make) rest w h in
      let w1 = (wrapped "build OBS client: " make w).1 in
      let start = sym (ap (λ (x : Result ResolvedClient × World K). x.0) e2) ∙ h in
      let (x, f1, f2) =
        bind-eq-ok (cache_set K key c)
          (λ x. pure {K = K} (record x { provider_revision = revision })) w1 start in
      let (r0, found, same) =
        cache_set-Holds key c w1 d x
          (ap (λ (y : World K). y.cache) (world-wrapped "build OBS client: " make w) ∙ is) coh f1 in
      (
        r0,
        ap (λ (y : Result ResolvedClient × World K). get y.1.cache key) (e2 ∙ f2) ∙ found,
        same
            ∙ ap (λ y. y.obs)
                (ok_inj (record x { provider_revision = revision }) r
                  (sym (ap (λ (y : Result ResolvedClient × World K). y.0) f2) ∙ start)),
      )

  client_for-Holds :
      (hit : Option ResolvedClient) (key : CacheKey) (config : ObsConfig) (revision : String)
      (w : World K) (d : Clients) (r : ResolvedClient)
      → w.cache ≡ some d
      → IsCoherent d
      → get w.cache key ≡ hit
      → (client_for K hit key config revision w).0 ≡ ok r
      → Holds key r.obs (client_for K hit key config revision w).1.cache
  unfolding client_for pure
  client_for-Holds none key config revision w d r is coh got h =
      build_client-Holds key config revision w d r is coh h
  client_for-Holds (some r0) key config revision w d r is coh got h = (
    r0,
    got,
    ap (λ y. y.obs) (ok_inj (record r0 { from_cache = true; provider_revision = revision }) r h),
  )

  from_result-eq-ok :
      {A : Type 0} (x : Result A) (w : World K) (a : A)
      → (from_result x w).0 ≡ ok a
      → (x ≡ ok a) × ((from_result x w).1 ≡ w)
  unfolding from_result pure fail
  from_result-eq-ok (ok b) w a h = (h, refl)
  from_result-eq-ok (err e) w a h = cc

  not_found_as-err :
      (e : GoError) (k : Secret) → not_found_as K credentials_secret_not_found e ≡ ok k → ⊥
  not_found_as-err e k h = ground arith

  secret_read :
      (name : NamespacedName) (w : World K) (k : Secret)
      → (on_error (not_found_as K credentials_secret_not_found) (call K (get_secret name)) w).0
        ≡ ok k
      → (K.perform (get_secret name) w.svc).0 ≡ ok k
  unfolding call
  secret_read name w k h =
      elim (on_error-eq-ok (not_found_as K credentials_secret_not_found) (call K (get_secret name))
        w h) [ inl e ↦ e | inr (x, e, i) ↦ absurd (not_found_as-err x k i) ]

  -- The run of a resolution whose client is cached.
  resolve_cached :
      (config : ProviderConfig) (w : World K) (k : Secret) (a : Credentials) (endpoint : String)
      (r0 : ResolvedClient)
      → (K.perform (get_secret (secret_key K config)) w.svc).0 ≡ ok k
      → credentials_from_secret k ≡ ok a
      → resolve_endpoint K (trim_space config.spec.region) config.spec.endpoint ≡ ok endpoint
      → get w.cache (cache_key K config k a (trim_space config.spec.region) endpoint) ≡ some r0
      → resolve_provider_config_object K config w ≡ (
        ok (record r0 {
          from_cache = true;
          provider_revision =
              observed_provider_revision K config k (trim_space config.spec.region) endpoint;
        }),
        (call K (get_secret (secret_key K config)) w).1,
      )
  unfolding resolve_provider_config_object handle call from_result pure fail cache_get read_world
      client_for
  resolve_cached config w k a endpoint r0 e1 e2 e3 e4 = rw (e1, e2, e3, e4) refl

  -- What is looked up, and what follows.
  abbrev serve : ProviderConfig → Secret → Credentials → String → Action K ResolvedClient
  serve config k a endpoint =
      let region = trim_space config.spec.region in
      let key = cache_key K config k a region endpoint in
      cache_get K key >>= λ hit.
      client_for K hit key (obs_config K a endpoint region)
        (observed_provider_revision K config k region endpoint)

  serve-Holds :
      (config : ProviderConfig) (k : Secret) (a : Credentials) (endpoint : String) (w : World K)
      (d : Clients) (r : ResolvedClient)
      → w.cache ≡ some d
      → IsCoherent d
      → (serve config k a endpoint w).0 ≡ ok r
      → Holds
          (cache_key K config k a (trim_space config.spec.region) endpoint)
          r.obs
          (serve config k a endpoint w).1.cache
  unfolding cache_get read_world handle pure
  serve-Holds config k a endpoint w d r is coh h =
      let region = trim_space config.spec.region in
      let key = cache_key K config k a region endpoint in
      client_for-Holds (get w.cache key) key (obs_config K a endpoint region)
        (observed_provider_revision K config k region endpoint) w d r is coh refl h

  -- What a resolution that succeeds has read and computed, and that it served from there.
  resolve-eq-ok :
      (config : ProviderConfig) (w : World K) (r : ResolvedClient)
      → (resolve_provider_config_object K config w).0 ≡ ok r
      → (k : Secret) × (a : Credentials) × (endpoint : String) × (w' : World K) × ((K.perform
            (get_secret (secret_key K config))
            w.svc).0
          ≡ ok k)
        × (credentials_from_secret k ≡ ok a)
        × (resolve_endpoint K (trim_space config.spec.region) config.spec.endpoint ≡ ok endpoint)
        × (w'.cache ≡ w.cache)
        × (resolve_provider_config_object K config w ≡ serve config k a endpoint w')
  unfolding resolve_provider_config_object call
  resolve-eq-ok config w r h =
      let name = secret_key K config in
      let f = not_found_as K {A = Secret} credentials_secret_not_found in
      let read = on_error f (call K (get_secret name)) in
      let region = trim_space config.spec.region in
      let located = λ (k : Secret) (a : Credentials).
        from_result (resolve_endpoint K region config.spec.endpoint) >>= serve config k a in
      let (k, e1, t1) =
        bind-eq-ok read (λ (k : Secret). from_result (credentials_from_secret k) >>= located k) w
          h in
      let w1 = (read w).1 in
      let h1 = sym (ap (λ (y : Result ResolvedClient × World K). y.0) t1) ∙ h in
      let (a, e2, t2) = bind-eq-ok (from_result (credentials_from_secret k)) (located k) w1 h1 in
      let (is_a, same2) = from_result-eq-ok (credentials_from_secret k) w1 a e2 in
      let w2 = (from_result {K = K} (credentials_from_secret k) w1).1 in
      let h2 = sym (ap (λ (y : Result ResolvedClient × World K). y.0) t2) ∙ h1 in
      let (endpoint, e3, t3) =
        bind-eq-ok (from_result (resolve_endpoint K region config.spec.endpoint)) (serve config k a)
          w2 h2 in
      let (is_e, same3) =
        from_result-eq-ok (resolve_endpoint K region config.spec.endpoint) w2 endpoint e3 in
      let w3 = (from_result {K = K} (resolve_endpoint K region config.spec.endpoint) w2).1 in
      (
        k,
        a,
        endpoint,
        w3,
        secret_read name w k e1,
        is_a,
        is_e,
        ap (λ (y : World K). y.cache)
            (same3 ∙ same2 ∙ world-on_error f (call K (get_secret name)) w),
        t1 ∙ t2 ∙ t3,
      )

  -- A resolution from the world `w` gives the OBS client of `r`, from the cache, and requests
  -- nothing but the Secret.
  abbrev pub IsServed : ProviderConfig → ResolvedClient → World K → Type 0
  IsServed config r w =
      (r' : ResolvedClient) × (r'.obs ≡ r.obs)
      × (r'.from_cache ≡ true)
      × (resolve_provider_config_object K config w
          ≡ (ok r', (call K (get_secret (secret_key K config)) w).1))

  -- When a resolution with a coherent cache has succeeded, and the API server then gives the same
  -- Secret, resolving the configuration again gives the same OBS client, from the cache, and
  -- requests nothing but the Secret.
  pub resolve_again-IsServed :
      (config : ProviderConfig) (w : World K) (d : Clients) (r : ResolvedClient)
      → w.cache ≡ some d
      → IsCoherent d
      → (resolve_provider_config_object K config w).0 ≡ ok r
      → (K.perform
          (get_secret (secret_key K config))
          (resolve_provider_config_object K config w).1.svc).0
        ≡ (K.perform (get_secret (secret_key K config)) w.svc).0
      → IsServed config r (resolve_provider_config_object K config w).1
  resolve_again-IsServed config w d r is coh h kept =
      let (k, a, endpoint, w', e1, e2, e3, same, there) = resolve-eq-ok config w r h in
      let (r0, found, obs) =
        serve-Holds config k a endpoint w' d r (same ∙ is) coh
          (sym (ap (λ (y : Result ResolvedClient × World K). y.0) there) ∙ h) in
      let key = cache_key K config k a (trim_space config.spec.region) endpoint in
      (
        _,
        obs,
        refl,
        resolve_cached config (resolve_provider_config_object K config w).1 k a endpoint r0
            (kept ∙ e1) e2 e3
            (ap (λ (y : Result ResolvedClient × World K). get y.1.cache key) there ∙ found),
      )
