-- ===== src/BucketController/Liveness.antt =====
-- What a reconcile of a Bucket comes to when the services grant what they are asked: the laws that
-- this rests on.
pub mod Settling
pub mod Kept
pub mod Claimed
pub mod Emptied
pub mod Leaving
use obs_operator.Base.{String, ◌≡◌, Bool, true, false, some, ◌⊎◌}
use obs_operator.Errors.{GoError, ObsError, Result, ok, err, error_as_obs}
use obs_operator.Api.{Bucket}
use obs_operator.Services.{
  Services, ObsClient, BucketRequest, BucketReply, CreateBucketInput, on_bucket, get_metadata,
  create_bucket, delete_bucket, list_versions, delete_objects, set_storage_policy, set_acl,
  get_tagging, delete_tagging, get_encryption, delete_encryption, patch_bucket, patch_bucket_status,
}
use obs_operator.BucketController.Settings.{
  normalize_storage_class, bucket_storage_class, bucket_acl,
}
use obs_operator.BucketController.ErrorKinds.{is_bucket_not_found}
use obs_operator.BucketController.Status.{bucket_finalizer}
use obs_operator.BucketController.Update.Service.{Settings, KeepsSettings}

-- The requests on settings that a Bucket may lead to and that need a value for an answer: reads, and
-- writes of what it asks for.
abbrev pub IsSettingOf : Services → Bucket → BucketRequest → Type 0
IsSettingOf K b get_metadata = ⊥
IsSettingOf K b delete_bucket = ⊥
IsSettingOf K b list_versions = ⊥
IsSettingOf K b (create_bucket _) = ⊥
IsSettingOf K b (delete_objects _) = ⊥
IsSettingOf K b get_tagging = ⊥
IsSettingOf K b delete_tagging = ⊥
IsSettingOf K b get_encryption = ⊥
IsSettingOf K b delete_encryption = ⊥
IsSettingOf K b (set_storage_policy v) =
    v ≡ normalize_storage_class K.constants (bucket_storage_class K.constants b)
IsSettingOf K b (set_acl v) = v ≡ bucket_acl K.constants b
IsSettingOf K b _ = Unit

-- The API server takes every patch and stores what it is given; OBS is not touched by that.
pub record TakesPatches (K : Services) (view : K.State → Settings) (exists : K.State → Bool)
    (stored : K.State → Bucket) : Type 0 where
  pub patches_status :
      (b b' : Bucket) (s : K.State)
      → let (r, t) = K.perform (patch_bucket_status b b') s in
        (r ≡ ok tt) × (view t ≡ view s) × (exists t ≡ exists s)
  pub patches :
      (b b' : Bucket) (s : K.State)
      → let (r, t) = K.perform (patch_bucket b b') s in
        (r ≡ ok b') × (view t ≡ view s) × (exists t ≡ exists s) × (stored t ≡ b')

-- An OBS error of a code.
abbrev pub HasCode : String → GoError → Type 0
HasCode code e = (o : ObsError) × (error_as_obs e ≡ some o) × (o.code ≡ code)

-- The answers by which OBS says that there is no encryption, the second one for a parallel file
-- system.
abbrev pub HasNoEncryptionCode : GoError → Type 0
HasNoEncryptionCode e = HasCode "NoSuchEncryptionConfiguration" e ⊎ HasCode "FsNotSupport" e

-- A value, or an error of a kind.
abbrev pub ValueOrError : {A : Type 0} → (GoError → Type 0) → Result A → Type 0
ValueOrError {A} Kind r = ((v : A) × (r ≡ ok v)) ⊎ ((e : GoError) × (r ≡ err e) × Kind e)

-- OBS keeps settings, grants the requests on those of a bucket that is there, and says whether the
-- bucket is there; it creates a bucket that is not.
pub record Grants (K : Services) (c : ObsClient) (b : Bucket) (view : K.State → Settings)
    (exists : K.State → Bool) : Type 0 where
  pub keeps : KeepsSettings K c b.name view
  pub answers :
      (q : BucketRequest) (s : K.State)
      → IsSettingOf K b q
      → exists s ≡ true
      → (v : BucketReply q) × ((K.perform (on_bucket c b.name q) s).0 ≡ ok v)
  pub setting_keeps :
      (q : BucketRequest) (s : K.State)
      → IsSettingOf K b q
      → exists (K.perform (on_bucket c b.name q) s).1 ≡ exists s
  -- A bucket without tags or without an encryption, as a new one, may be answered by an error.
  pub reads_tags :
      (s : K.State)
      → exists s ≡ true
      → let (r, t) = K.perform (on_bucket c b.name get_tagging) s in
        ValueOrError (HasCode "NoSuchTagSet") r × (exists t ≡ exists s)
  pub clears_tags :
      (s : K.State)
      → exists s ≡ true
      → let (r, t) = K.perform (on_bucket c b.name delete_tagging) s in
        ValueOrError (HasCode "NoSuchTagSet") r × (exists t ≡ exists s)
  pub reads_encryption :
      (s : K.State)
      → exists s ≡ true
      → let (r, t) = K.perform (on_bucket c b.name get_encryption) s in
        ValueOrError HasNoEncryptionCode r × (exists t ≡ exists s)
  pub clears_encryption :
      (s : K.State)
      → exists s ≡ true
      → let (r, t) = K.perform (on_bucket c b.name delete_encryption) s in
        ValueOrError (HasCode "NoSuchEncryptionConfiguration") r × (exists t ≡ exists s)
  pub finds :
      (s : K.State)
      → exists s ≡ true
      → (v : String) × ((K.perform (on_bucket c b.name get_metadata) s).0 ≡ ok v)
  pub misses :
      (s : K.State)
      → exists s ≡ false
      → (e : GoError) × ((K.perform (on_bucket c b.name get_metadata) s).0 ≡ err e)
        × (is_bucket_not_found e ≡ true)
  pub metadata_keeps :
      (s : K.State)
      → let t = (K.perform (on_bucket c b.name get_metadata) s).1 in
        (view t ≡ view s) × (exists t ≡ exists s)
  pub creates :
      (i : CreateBucketInput) (s : K.State)
      → exists s ≡ false
      → let (r, t) = K.perform (on_bucket c b.name (create_bucket i)) s in
        (r ≡ ok tt) × (exists t ≡ true)
