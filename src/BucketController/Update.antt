-- ===== src/BucketController/Update.antt =====
-- `update` and its six steps: each reads a setting from OBS, compares it with what the Bucket asks
-- for, and writes it only where they differ.
pub mod Service
pub mod Reading
pub mod Steps
pub mod TagsAndEncryption
pub mod Convergence
pub mod Quiet
use obs_operator.Base.{String, Bool, ◌||◌, Option, none, some, List, [], ◌∷◌, ◌==◌}
use obs_operator.Base.{string_eq, option_eq, nat_eq, length, if◌then◌else◌}
use obs_operator.Base.Dict.{Dict}
use obs_operator.Errors.{GoError, Result, ok, err, wrap}
use obs_operator.Api.{Bucket, BucketServerSideEncryptionSpec}
use obs_operator.Services.{
  Services, ObsClient, GetBucketAclOutput, BucketLoggingStatus, BucketEncryptionConfiguration,
  BucketRequest, BucketReply, on_bucket, get_storage_policy, set_storage_policy, get_acl, set_acl,
  get_versioning, set_versioning, get_tagging, set_tagging, delete_tagging, get_logging,
  set_logging, get_encryption, set_encryption, delete_encryption,
}
use obs_operator.Services.Action.{Action, pure, ◌>>=◌, ◌>>◌, wrapped, call, on_error}
use obs_operator.BucketController.Acl.{flatten_canned_acl}
use obs_operator.BucketController.Settings.{
  normalize_storage_class, bucket_storage_class, bucket_acl, bucket_versioning, desired_tags,
  tag_map, maps_equal, tags_from_map, logging_input, logging_matches, encryption_config,
  encryption_matches,
}
use obs_operator.BucketController.ErrorKinds.{is_bucket_not_found, is_bucket_code}

-- Errors that a step takes for a success with the value `a`; any other is wrapped.
abbrev pub unless : {A : Type 0} → (GoError → Bool) → A → String → GoError → Result A
unless ignored a prefix e = if ignored e then ok a else err (wrap prefix e)

unfoldable pub no_tags_error : GoError → Bool
unfolding is_bucket_code is_bucket_not_found
no_tags_error e = is_bucket_code e "NoSuchTagSet" || is_bucket_not_found e

unfoldable pub no_encryption_error : GoError → Bool
unfolding is_bucket_code is_bucket_not_found
no_encryption_error e = is_bucket_code e "NoSuchEncryptionConfiguration" || is_bucket_not_found e

-- When `GetBucketEncryption` fails so, there is no configuration.
unfoldable pub no_current_encryption_error : GoError → Bool
unfolding is_bucket_code is_bucket_not_found
no_current_encryption_error e =
    is_bucket_code e "NoSuchEncryptionConfiguration"
    || is_bucket_code e "FsNotSupport"
    || is_bucket_not_found e

module _ (K : Services) (client : ObsClient) where
  -- A request on the bucket of a resource.
  abbrev pub ask : Bucket → (q : BucketRequest) → Action K (BucketReply q)
  ask b q = call K (on_bucket client b.name q)

  -- `reconcileBucketStorageClass`
  unfoldable pub put_storage_class : Bucket → String → String → Action K (Unit {0})
  put_storage_class b desired current =
      if normalize_storage_class K.constants current == desired
      then pure tt
      else wrapped "set bucket storage class: " (ask b (set_storage_policy desired))

  unfoldable pub reconcile_storage_class : Bucket → Action K (Unit {0})
  reconcile_storage_class b = do
    current ← wrapped "read bucket storage class: " (ask b get_storage_policy)
    put_storage_class b (normalize_storage_class K.constants (bucket_storage_class K.constants b))
        current

  -- `reconcileBucketACL`
  unfoldable pub put_acl : Bucket → String → Option GetBucketAclOutput → Action K (Unit {0})
  put_acl b desired current =
      if flatten_canned_acl K.constants current == some desired
      then pure tt
      else wrapped "set bucket acl: " (ask b (set_acl desired))

  unfoldable pub reconcile_acl : Bucket → Action K (Unit {0})
  reconcile_acl b = do
    current ← wrapped "read bucket acl: " (ask b get_acl)
    put_acl b (bucket_acl K.constants b) current

  -- `reconcileBucketVersioning`
  unfoldable pub put_versioning : Bucket → String → String → Action K (Unit {0})
  put_versioning b desired current =
      if current == desired
      then pure tt
      else wrapped "set bucket versioning: " (ask b (set_versioning desired))

  unfoldable pub reconcile_versioning : Bucket → Action K (Unit {0})
  reconcile_versioning b = do
    current ← wrapped "read bucket versioning: " (ask b get_versioning)
    put_versioning b (bucket_versioning K.constants b) current

  -- `bucketTags`
  unfoldable pub bucket_tags : Bucket → Action K (Dict String String)
  bucket_tags b = do
    tags ← on_error (unless no_tags_error [] "read bucket tags: ") (ask b get_tagging)
    pure (tag_map [] tags)

  -- `reconcileBucketTags`
  unfoldable pub put_tags : Bucket → Dict String String → Dict String String → Action K (Unit {0})
  put_tags b desired current =
      if maps_equal current desired
      then pure tt
      else if length desired == 0
      then on_error (unless no_tags_error tt "delete bucket tags: ") (ask b delete_tagging)
      else wrapped "set bucket tags: " (ask b (set_tagging (tags_from_map desired)))

  unfoldable pub reconcile_tags : Bucket → Action K (Unit {0})
  reconcile_tags b = do current ← bucket_tags b; put_tags b (desired_tags b) current

  -- `reconcileBucketLogging`
  unfoldable pub put_logging :
      Bucket → BucketLoggingStatus → Option BucketLoggingStatus → Action K (Unit {0})
  put_logging b desired current =
      if logging_matches current desired
      then pure tt
      else wrapped "set bucket logging: " (ask b (set_logging desired))

  unfoldable pub reconcile_logging : Bucket → Action K (Unit {0})
  reconcile_logging b = do
    current ← wrapped "read bucket logging: " (ask b get_logging)
    put_logging b (logging_input b) current

  -- `reconcileBucketEncryption`, where the resource asks for no encryption and where it does.
  unfoldable pub clear_encryption :
      Bucket → Option BucketEncryptionConfiguration → Action K (Unit {0})
  clear_encryption b none = pure tt
  clear_encryption b (some _) =
      on_error (unless no_encryption_error tt "delete bucket encryption: ")
        (ask b delete_encryption)

  unfoldable pub put_encryption :
      Bucket
      → BucketEncryptionConfiguration
      → Option BucketEncryptionConfiguration
      → Action K (Unit {0})
  put_encryption b desired current =
      if encryption_matches current desired
      then pure tt
      else wrapped "set bucket encryption: " (ask b (set_encryption desired))

  unfoldable pub apply_encryption :
      Bucket
      → Option BucketServerSideEncryptionSpec
      → Option BucketEncryptionConfiguration
      → Action K (Unit {0})
  apply_encryption b none current = clear_encryption b current
  apply_encryption b (some spec) current = put_encryption b (encryption_config spec) current

  unfoldable pub reconcile_encryption : Bucket → Action K (Unit {0})
  reconcile_encryption b = do
    current ←
        on_error (unless no_current_encryption_error none "read bucket encryption: ")
          (ask b get_encryption)
    apply_encryption b b.spec.server_side_encryption current

  -- The loop of `update` over its steps.
  unfoldable pub run_steps : List (Bucket → Action K (Unit {0})) → Bucket → Action K (Unit {0})
  run_steps [] b = pure tt
  run_steps (step ∷ steps) b = do step b; run_steps steps b

  unfoldable pub update : Bucket → Action K (Unit {0})
  update b =
      run_steps
        (reconcile_storage_class ∷ reconcile_acl ∷ reconcile_versioning ∷ reconcile_tags
          ∷ reconcile_logging ∷ reconcile_encryption ∷ [])
        b
