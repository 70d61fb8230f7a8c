-- ===== src/ProviderConfigController/Watch.antt =====
-- The index of ProviderConfigs by their credentials Secret, and `providerConfigsForSecret`.
pub mod Enqueue
use obs_operator.Base.{String, List, [], ◌∷◌, map, ◌==◌, string_eq, if◌then◌else◌}
use obs_operator.Api.{NamespacedName, ObjectMeta, ProviderConfig}
use obs_operator.Services.{Services, list_provider_configs}
use obs_operator.Services.Action.{Action, pure, handle, call}
use obs_operator.BucketController.Watch.{ClientObject, provider_config_object}

-- `providerConfigCredentialsSecretRefIndexer`
unfoldable pub credentials_secret_ref_index : ClientObject → List String
unfolding string_eq
credentials_secret_ref_index (provider_config_object c) =
    if c.spec.credentials_secret_ref.name == "" then [] else c.spec.credentials_secret_ref.name ∷ []
credentials_secret_ref_index _ = []

abbrev pub provider_config_request : ProviderConfig → NamespacedName
provider_config_request c = record { namespace = c.namespace; name = c.name }

module _ (K : Services) where
  -- `providerConfigsForSecret`: a failed list yields no requests.
  unfoldable pub provider_configs_for_secret : ObjectMeta → Action K (List NamespacedName)
  provider_configs_for_secret secret =
      handle (call K (list_provider_configs secret.namespace secret.name))
        (λ configs. pure (map provider_config_request configs)) (λ _. pure [])
