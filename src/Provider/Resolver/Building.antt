-- ===== src/Provider/Resolver/Building.antt =====
-- Which client a resolution puts into the cache: one that was built from the credentials, the
-- endpoint and the region of its key.
use obs_operator.Base.{String, ◌≡◌, refl, sym, ◌∙◌, Option, none, some, inl, inr}
use mathlib.Core.Path.{subst}
use obs_operator.Errors.{GoError, Result, ok}
use obs_operator.Api.{NamespacedName, ProviderConfig}
use obs_operator.Services.{Services, ObsClient, ObsConfig, new_client, get_secret}
use obs_operator.Services.Action.{
  World, Action, pure, fail, handle, wrapped, read_world, set_cache, call, close_clients,
}
use obs_operator.Services.Run.{Result-cases, handle_ok, handle_err, wrapped-eq-ok, result-call}
use obs_operator.Provider.Cache.{
  CacheKey, ResolvedClient, Cache, set, new_resolved_client, invalidate_provider as drop,
}
use obs_operator.Provider.Cache.Coherence.{FromKey}
use obs_operator.Provider.Cache.Held.{HeldIn, set-HeldIn, invalidate_provider-HeldIn}
use obs_operator.Provider.Credentials.{Credentials, credentials_hash}
use obs_operator.Provider.Resolver.{
  secret_key, cache_key, cache_get, cache_set, build_client, client_for,
  resolve_provider_config_object, invalidate_provider,
}
use obs_operator.Provider.Resolver.Coherence.{
  KeepsCache, KeepsCache-pure, KeepsCache-fail, KeepsCache-call, KeepsCache-handle,
  KeepsCache-from_result, KeepsCache-on_error, KeepsCache-close_clients,
}

-- `obs.New` gives a client of the configuration that it is given.
pub record BuildsClients (K : Services) (config_of : ObsClient → ObsConfig) : Type 0 where
  pub builds :
      (config : ObsConfig) (s : K.State) (c : ObsClient)
      → (K.perform (new_client config) s).0 ≡ ok c
      → config_of c ≡ config

abbrev pub credentials_in : ObsConfig → Credentials
credentials_in config = record {
  access_key_id = config.access_key_id;
  secret_access_key = config.secret_access_key;
  security_token = config.security_token;
}

-- The configuration has the credentials, by their hash, the endpoint and the region of the key.
abbrev pub IsConfigOf : Services → CacheKey → ObsConfig → Type 0
IsConfigOf K key config =
    (credentials_hash K (credentials_in config) ≡ key.credentials_hash)
    × (config.endpoint ≡ key.endpoint)
    × (config.region ≡ key.region)

-- The entry carries the key's names, and its OBS client was built from a configuration of the key.
abbrev pub IsBuiltFor :
    (K : Services) → (ObsClient → ObsConfig) → CacheKey → ResolvedClient → Type 0
IsBuiltFor K config_of key r = FromKey key r × IsConfigOf K key (config_of r.obs)

-- A block whose rest may use what its first part has given.
KeepsCache-answered :
    {K : Services} {Q : Cache → Type 0} {A B : Type 0} (m : Action K A) (f : A → Action K B)
    (g : GoError → Action K B)
    → KeepsCache Q m
    → ((w : World K) (a : A) → (m w).0 ≡ ok a → KeepsCache Q (f a))
    → ((e : GoError) → KeepsCache Q (g e))
    → KeepsCache Q (handle m f g)
KeepsCache-answered {K} {Q} {A} {B} m f g hm hf hg = record {
  at = λ w h. elim (Result-cases (m w).0) [
    | inl (a, e) ↦
        subst (λ (x : Result B × World K). Q x.1.cache) (sym (handle_ok m f g w e))
          ((hf w a e).at (m w).1 (hm.at w h))
    | inr (x, e) ↦
        subst (λ (y : Result B × World K). Q y.1.cache) (sym (handle_err m f g w e))
          ((hg x).at (m w).1 (hm.at w h))
  ];
}

module _ (K : Services) (config_of : ObsClient → ObsConfig) (L : BuildsClients K config_of) where
  abbrev pub IsBuilt : Cache → Type 0
  IsBuilt cache = HeldIn (IsBuiltFor K config_of) cache

  cache_set-KeepsCache :
      (key : CacheKey) (client : ObsClient)
      → IsConfigOf K key (config_of client)
      → KeepsCache IsBuilt (cache_set K key client)
  unfolding cache_set read_world set_cache handle new_resolved_client
  cache_set-KeepsCache key client built = record {
    at = λ w h.
        let (r, c, closed) = set w.cache key client in
        (KeepsCache-handle {Q = IsBuilt} (close_clients K closed) (λ (u : Unit {0}). pure {K = K} r)
            fail (KeepsCache-close_clients closed) (λ _. KeepsCache-pure r) KeepsCache-fail).at
          (record w { cache = c })
          (set-HeldIn (IsBuiltFor K config_of) w.cache key client
            ((refl, refl, refl, refl, refl), built) h);
  }

  build_client-KeepsCache :
      (key : CacheKey) (config : ObsConfig) (revision : String)
      → IsConfigOf K key config
      → KeepsCache IsBuilt (build_client K key config revision)
  unfolding build_client
  build_client-KeepsCache key config revision of_key =
      let new : Action K ObsClient = call K (new_client config) in
      KeepsCache-answered (wrapped "build OBS client: " new) _ _
        (KeepsCache-handle _ _ _ (KeepsCache-call (new_client config)) (λ c. KeepsCache-pure c)
          (λ e. KeepsCache-fail _))
        (λ w c e.
          let same = L.builds config w.svc c (
            sym (result-call K (new_client config) w)
            ∙ wrapped-eq-ok "build OBS client: " new w e) in
          KeepsCache-handle _ _ _
            (cache_set-KeepsCache key c (subst (IsConfigOf K key) (sym same) of_key))
            (λ r. KeepsCache-pure _) KeepsCache-fail)
        KeepsCache-fail

  client_for-KeepsCache :
      (hit : Option ResolvedClient) (key : CacheKey) (config : ObsConfig) (revision : String)
      → IsConfigOf K key config
      → KeepsCache IsBuilt (client_for K hit key config revision)
  unfolding client_for
  client_for-KeepsCache none key config revision of_key =
      build_client-KeepsCache key config revision of_key
  client_for-KeepsCache (some r) key config revision of_key = KeepsCache-pure _

  cache_get-KeepsCache : (key : CacheKey) → KeepsCache IsBuilt (cache_get K key)
  unfolding cache_get read_world handle pure
  cache_get-KeepsCache key = record { at = λ w h. h }

  pub resolve_provider_config_object-KeepsCache :
      (c : ProviderConfig) → KeepsCache IsBuilt (resolve_provider_config_object K c)
  unfolding resolve_provider_config_object cache_key
  resolve_provider_config_object-KeepsCache c =
      KeepsCache-handle _ _ _
        (KeepsCache-on_error {Q = IsBuilt} _ _ (KeepsCache-call (get_secret (secret_key K c))))
        (λ secret.
          KeepsCache-handle _ _ _ (KeepsCache-from_result _)
            (λ credentials.
              KeepsCache-handle _ _ _ (KeepsCache-from_result _)
                (λ endpoint.
                  KeepsCache-handle _ _ _ (cache_get-KeepsCache _)
                    (λ hit. client_for-KeepsCache hit _ _ _ (refl, refl, refl)) KeepsCache-fail)
                KeepsCache-fail)
            KeepsCache-fail)
        KeepsCache-fail

  pub invalidate_provider-KeepsCache :
      (name : NamespacedName) → KeepsCache IsBuilt (invalidate_provider K name)
  unfolding invalidate_provider read_world set_cache handle
  invalidate_provider-KeepsCache name = record {
    at = λ w h.
        let (c, closed) = drop w.cache name in
        (KeepsCache-close_clients {Q = IsBuilt} closed).at (record w { cache = c })
          (invalidate_provider-HeldIn (IsBuiltFor K config_of) w.cache name h);
  }
