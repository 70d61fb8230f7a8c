-- ===== src/BucketController/Watch.antt =====
-- Which events reach the Bucket controller: `bucketEventPredicate`, the index of Buckets by their
-- ProviderConfig, and `bucketsForProviderConfig`.
pub mod Updates
pub mod Enqueue
use obs_operator.Base.{String, Bool, true, false, not, ◌||◌, Option, none, some, List, [], ◌∷◌, map}
use obs_operator.Base.{◌==◌, string_eq, nat_eq, option_eq, if◌then◌else◌}
use obs_operator.Api.{NamespacedName, ObjectMeta, Bucket, ProviderConfig}
use obs_operator.Services.{Services, list_bucket_objects}
use obs_operator.Services.Action.{Action, pure, handle, call}

-- `client.Object`, by its dynamic type.
pub data ClientObject : Type 0 where
  bucket_object : Bucket → ClientObject
  provider_config_object : ProviderConfig → ClientObject
  other_object : ObjectMeta → ClientObject

unfoldable pub strings_equal : List String → List String → Bool
unfolding string_eq
strings_equal [] [] = true
strings_equal (s ∷ ss) (t ∷ ts) = if s == t then strings_equal ss ts else false
strings_equal _ _ = false

-- `UpdateFunc` of `bucketEventPredicate`. The other events pass.
unfoldable pub bucket_update_passes : Option ObjectMeta → Option ObjectMeta → Bool
unfolding nat_eq option_eq strings_equal
bucket_update_passes none new = true
bucket_update_passes (some old) none = true
bucket_update_passes (some old) (some new) =
    not (old.generation == new.generation)
    || not (old.deletion_timestamp == new.deletion_timestamp)
    || not (strings_equal old.finalizers new.finalizers)

-- `bucketProviderConfigRefIndexer`
unfoldable pub provider_config_ref_index : ClientObject → List String
unfolding string_eq
provider_config_ref_index (bucket_object b) =
    if b.spec.provider_config_ref.name == "" then [] else b.spec.provider_config_ref.name ∷ []
provider_config_ref_index _ = []

abbrev pub bucket_request : Bucket → NamespacedName
bucket_request b = record { namespace = b.namespace; name = b.name }

module _ (K : Services) where
  -- `bucketsForProviderConfig`: a failed list yields no requests.
  unfoldable pub buckets_for_provider_config : ObjectMeta → Action K (List NamespacedName)
  buckets_for_provider_config config =
      handle (call K (list_bucket_objects config.namespace config.name))
        (λ buckets. pure (map bucket_request buckets)) (λ _. pure [])
