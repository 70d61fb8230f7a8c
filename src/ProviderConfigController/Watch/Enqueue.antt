-- ===== src/ProviderConfigController/Watch/Enqueue.antt =====
-- Which ProviderConfigs `providerConfigsForSecret` enqueues, when the API server lists by the index
-- that `SetupWithManager` registers.
use obs_operator.Base.{String, ◌≡◌, ◌≢◌, refl, ap, ◌∙◌, Bool, ◌&&◌, List, ◌==◌, contains, string_eq}
use obs_operator.BucketController.Watch.Enqueue.{requests_of}
use obs_operator.BucketController.Watch.{provider_config_object}
use obs_operator.Base.Select.{select, any, any_alike, contains-map, contains-singleton}
use obs_operator.Errors.{ok}
use obs_operator.Api.{NamespacedName, ObjectMeta, ProviderConfig, namespaced_name_eq}
use obs_operator.Services.{Services, list_provider_configs}
use obs_operator.Services.Action.{World, pure, call}
use obs_operator.Services.Run.{handle_ok, result-call}
use obs_operator.ProviderConfigController.Watch.{
  credentials_secret_ref_index, provider_config_request, provider_configs_for_secret,
}

abbrev pub is_filed : String → String → ProviderConfig → Bool
is_filed namespace name b =
    b.namespace == namespace
    && contains (credentials_secret_ref_index (provider_config_object b)) name

-- A list by namespace and index key gives the stored ProviderConfigs that the indexer files under
-- the key.
pub record ListsProviderConfigs (K : Services) (stored : K.State → List ProviderConfig)
    : Type 0 where
  pub at :
      (namespace name : String) (s : K.State)
      → (K.perform (list_provider_configs namespace name) s).0
        ≡ ok (select (is_filed namespace name) (stored s))

-- The ProviderConfig names the Secret and is the one that the request names.
abbrev pub names_secret : ObjectMeta → NamespacedName → ProviderConfig → Bool
names_secret c r b =
    (b.namespace == c.namespace && b.spec.credentials_secret_ref.name == c.name)
    && r == provider_config_request b

filed :
    (name : String) (b : ProviderConfig)
    → name ≢ ""
    → contains (credentials_secret_ref_index (provider_config_object b)) name
      ≡ (b.spec.credentials_secret_ref.name == name)
unfolding credentials_secret_ref_index
filed name b h = contains-singleton "" b.spec.credentials_secret_ref.name name h

-- On a change of a Secret, a ProviderConfig is enqueued exactly if it stands in the namespace of
-- the Secret and names it for its credentials.
pub provider_configs_for_secret-names_secret :
    (K : Services) (stored : K.State → List ProviderConfig)
    → ListsProviderConfigs K stored
    → (c : ObjectMeta) (r : NamespacedName) (w : World K) → c.name ≢ ""
    → contains (requests_of (provider_configs_for_secret K c w).0) r
      ≡ any (names_secret c r) (stored w.svc)
unfolding provider_configs_for_secret pure
provider_configs_for_secret-names_secret K stored lists c r w h =
    ap (λ p. contains (requests_of p.0) r) (handle_ok _ _ _ w listed)
    ∙ contains-map provider_config_request (is_filed c.namespace c.name) r (stored w.svc)
    ∙ any_alike (λ b. is_filed c.namespace c.name b && r == provider_config_request b)
        (names_secret c r) (λ b. rw (filed c.name b h) refl) (stored w.svc)
  where
    listed :
        (call K (list_provider_configs c.namespace c.name) w).0
        ≡ ok (select (is_filed c.namespace c.name) (stored w.svc))
    listed =
        result-call K (list_provider_configs c.namespace c.name) w
        ∙ lists.at c.namespace c.name w.svc
