-- ===== src/BucketController/Update/Service.antt =====
-- What `update` relies on of OBS: a service that keeps the settings that it is given.
use obs_operator.Base.{String, ◌≡◌, Bool, true, Option, none, some, List, []}
use obs_operator.Base.{string_eq, option_eq, nat_eq}
use obs_operator.Errors.{GoError, Result, ok, err}
use obs_operator.Api.{Bucket, BucketServerSideEncryptionSpec}
use obs_operator.Services.{
  Services, ObsClient, GetBucketAclOutput, Tag, BucketLoggingStatus, BucketEncryptionConfiguration,
  BucketRequest, on_bucket, get_storage_policy, set_storage_policy, get_acl, set_acl,
  get_versioning, set_versioning, get_tagging, set_tagging, delete_tagging, get_logging,
  set_logging, get_encryption, set_encryption, delete_encryption,
}
use obs_operator.BucketController.Acl.{flatten_canned_acl}
use obs_operator.BucketController.Settings.{
  normalize_storage_class, bucket_storage_class, bucket_acl, bucket_versioning, desired_tags,
  tag_map, maps_equal, logging_input, logging_matches, encryption_config, encryption_matches,
}
use obs_operator.BucketController.Update.{
  no_tags_error, no_encryption_error, no_current_encryption_error,
}

-- The settings of a remote bucket, as its `Get` requests report them.
pub record Settings : Type 0 where
  pub storage_class : String
  pub acl : Option GetBucketAclOutput
  pub versioning : String
  pub tags : List Tag
  pub logging : Option BucketLoggingStatus
  pub encryption : Option BucketEncryptionConfiguration

-- The absent configuration is the empty one.
abbrev pub logging_of : Option BucketLoggingStatus → BucketLoggingStatus
logging_of none = record { target_bucket = ""; target_prefix = ""; agency = "" }
logging_of (some l) = l

-- The six requests that read a setting.
abbrev pub IsRead : BucketRequest → Type 0
IsRead get_storage_policy = Unit
IsRead get_acl = Unit
IsRead get_versioning = Unit
IsRead get_tagging = Unit
IsRead get_logging = Unit
IsRead get_encryption = Unit
IsRead _ = ⊥

-- A deletion that succeeds, or that finds nothing to delete.
abbrev pub Cleared : (GoError → Bool) → Result (Unit {0}) → Type 0
Cleared ignored (ok _) = Unit
Cleared ignored (err e) = ignored e ≡ true

-- The service keeps settings: a read reports them and changes nothing, its "no such" errors mean
-- that there are none, and a write that succeeds changes the setting it names. OBS may report a
-- storage class by its S3 name, and reports a canned ACL by its grants.
pub record KeepsSettings (K : Services) (c : ObsClient) (n : String) (view : K.State → Settings)
    : Type 0 where
  pub reads_storage_class :
      (s : K.State) (v : String)
      → (K.perform (on_bucket c n get_storage_policy) s).0 ≡ ok v
      → v ≡ (view s).storage_class
  pub reads_acl :
      (s : K.State) (v : Option GetBucketAclOutput)
      → (K.perform (on_bucket c n get_acl) s).0 ≡ ok v
      → v ≡ (view s).acl
  pub reads_versioning :
      (s : K.State) (v : String)
      → (K.perform (on_bucket c n get_versioning) s).0 ≡ ok v
      → v ≡ (view s).versioning
  pub reads_tags :
      (s : K.State) (v : List Tag)
      → (K.perform (on_bucket c n get_tagging) s).0 ≡ ok v
      → v ≡ (view s).tags
  pub reads_logging :
      (s : K.State) (v : Option BucketLoggingStatus)
      → (K.perform (on_bucket c n get_logging) s).0 ≡ ok v
      → v ≡ (view s).logging
  pub reads_encryption :
      (s : K.State) (v : Option BucketEncryptionConfiguration)
      → (K.perform (on_bucket c n get_encryption) s).0 ≡ ok v
      → v ≡ (view s).encryption
  pub no_tags :
      (s : K.State) (e : GoError)
      → (K.perform (on_bucket c n get_tagging) s).0 ≡ err e
      → no_tags_error e ≡ true
      → (view s).tags ≡ []
  pub no_encryption :
      (s : K.State) (e : GoError)
      → (K.perform (on_bucket c n get_encryption) s).0 ≡ err e
      → no_current_encryption_error e ≡ true
      → (view s).encryption ≡ none
  pub read_keeps :
      (q : BucketRequest) (s : K.State) → IsRead q → view (K.perform (on_bucket c n q) s).1 ≡ view s
  pub sets_storage_class :
      (s : K.State) (v : String)
      → (K.perform (on_bucket c n (set_storage_policy v)) s).0 ≡ ok tt
      → let t = (K.perform (on_bucket c n (set_storage_policy v)) s).1 in
        (view t ≡ record (view s) { storage_class = (view t).storage_class })
        × (normalize_storage_class K.constants (view t).storage_class ≡ v)
  pub sets_acl :
      (s : K.State) (v : String)
      → (K.perform (on_bucket c n (set_acl v)) s).0 ≡ ok tt
      → let t = (K.perform (on_bucket c n (set_acl v)) s).1 in
        (view t ≡ record (view s) { acl = (view t).acl })
        × (flatten_canned_acl K.constants (view t).acl ≡ some v)
  pub sets_versioning :
      (s : K.State) (v : String)
      → (K.perform (on_bucket c n (set_versioning v)) s).0 ≡ ok tt
      → view (K.perform (on_bucket c n (set_versioning v)) s).1 ≡ record (view s) { versioning = v }
  pub sets_tags :
      (s : K.State) (v : List Tag)
      → (K.perform (on_bucket c n (set_tagging v)) s).0 ≡ ok tt
      → view (K.perform (on_bucket c n (set_tagging v)) s).1 ≡ record (view s) { tags = v }
  pub deletes_tags :
      (s : K.State)
      → Cleared no_tags_error (K.perform (on_bucket c n delete_tagging) s).0
      → view (K.perform (on_bucket c n delete_tagging) s).1 ≡ record (view s) { tags = [] }
  pub sets_logging :
      (s : K.State) (v : BucketLoggingStatus)
      → (K.perform (on_bucket c n (set_logging v)) s).0 ≡ ok tt
      → view (K.perform (on_bucket c n (set_logging v)) s).1 ≡ record (view s) { logging = some v }
  pub sets_encryption :
      (s : K.State) (v : BucketEncryptionConfiguration)
      → (K.perform (on_bucket c n (set_encryption v)) s).0 ≡ ok tt
      → view (K.perform (on_bucket c n (set_encryption v)) s).1
        ≡ record (view s) { encryption = some v }
  pub deletes_encryption :
      (s : K.State)
      → Cleared no_encryption_error (K.perform (on_bucket c n delete_encryption) s).0
      → view (K.perform (on_bucket c n delete_encryption) s).1
        ≡ record (view s) { encryption = none }

-- What the resource asks of the encryption.
abbrev pub EncryptionWanted :
    Option BucketServerSideEncryptionSpec → Option BucketEncryptionConfiguration → Type 0
EncryptionWanted none current = current ≡ none
EncryptionWanted (some spec) current = encryption_matches current (encryption_config spec) ≡ true

-- The remote bucket is as the resource asks, by the comparisons of the controller.
abbrev pub IsInSync : Services → Bucket → Settings → Type 0
IsInSync K b s =
    (normalize_storage_class K.constants s.storage_class
      ≡ normalize_storage_class K.constants (bucket_storage_class K.constants b))
    × (flatten_canned_acl K.constants s.acl ≡ some (bucket_acl K.constants b))
    × (s.versioning ≡ bucket_versioning K.constants b)
    × (maps_equal (tag_map [] s.tags) (desired_tags b) ≡ true)
    × (logging_matches s.logging (logging_input b) ≡ true)
    × EncryptionWanted b.spec.server_side_encryption s.encryption
