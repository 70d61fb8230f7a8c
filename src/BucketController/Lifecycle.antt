-- ===== src/BucketController/Lifecycle.antt =====
-- `observe`, `create` and `resolveBucketClient`.
use obs_operator.Base.{String, ◌<>◌, Bool, true, false, Option, none, some, string_eq}
use obs_operator.Base.{if◌then◌else◌}
use obs_operator.Errors.{
  GoError, Result, ok, err, bucket_already_exists, sentinel, sentinel_text, wrap_error, wrap,
  error_text,
}
use obs_operator.Api.{Bucket}
use obs_operator.Services.{
  Services, ObsClient, CreateBucketInput, on_bucket, get_metadata, create_bucket,
}
use obs_operator.Services.Action.{Action, pure, fail, handle, from_result, call}
use obs_operator.Provider.Cache.{ResolvedClient}
use obs_operator.Provider.Resolver.{resolve_bucket, with_new_cache}
use obs_operator.BucketController.Settings.{bucket_acl, bucket_storage_class}
use obs_operator.BucketController.ErrorKinds.{is_bucket_not_found, is_create_bucket_conflict}

-- `bucketObservation`; of the metadata only the version is read.
pub record BucketObservation : Type 0 where
  pub exists : Bool
  pub metadata : Option String

module _ (K : Services) where
  abbrev pub seen_bucket : String → BucketObservation
  seen_bucket version = record { exists = true; metadata = some version }

  unfoldable pub observe_failed : Bucket → GoError → Result BucketObservation
  unfolding is_bucket_not_found
  observe_failed b e =
      if is_bucket_not_found e
      then ok (record { exists = false; metadata = none })
      else err (wrap ("observe bucket " <> b.name <> ": ") e)

  -- `observe`
  unfoldable pub observe : ObsClient → Bucket → Action K BucketObservation
  observe client b =
      handle (call K (on_bucket client b.name get_metadata)) (λ version. pure (seen_bucket version))
        (λ e. from_result (observe_failed b e))

  -- The input of `CreateBucket`; an empty project is left out, which is the empty text.
  unfoldable pub create_input : Bucket → String → CreateBucketInput
  unfolding bucket_acl bucket_storage_class
  create_input b region = record {
    acl = bucket_acl K.constants b;
    is_fs_file_interface = b.spec.parallel_fs;
    storage_class = bucket_storage_class K.constants b;
    epid = b.spec.enterprise_project_id;
    location = region;
  }

  -- A conflict wraps the sentinel and keeps of the error only its text.
  unfoldable pub create_error : Bucket → GoError → GoError
  unfolding is_create_bucket_conflict error_text
  create_error b e =
      if is_create_bucket_conflict e
      then wrap_error
          (sentinel_text bucket_already_exists
            <> ": create bucket "
            <> b.name
            <> ": "
            <> error_text e)
          (sentinel bucket_already_exists)
      else wrap ("create bucket " <> b.name <> ": ") e

  -- `create`
  unfoldable pub create : ObsClient → Bucket → String → Action K (Unit {0})
  create client b region =
      handle (call K (on_bucket client b.name (create_bucket (create_input b region))))
        (λ _. pure tt) (λ e. fail (create_error b e))

  -- `resolveBucketClient`, of a reconciler that may have no resolver.
  unfoldable pub resolve_bucket_client : Bool → Bucket → Action K ResolvedClient
  resolve_bucket_client true b = resolve_bucket K b
  resolve_bucket_client false b = with_new_cache K (resolve_bucket K b)
