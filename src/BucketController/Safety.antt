-- ===== src/BucketController/Safety.antt =====
-- What a reconcile of a Bucket may ask of OBS, by the state of the resource.
pub mod Steps
pub mod Deletion
pub mod Whole
use obs_operator.Base.{ℕ, String, ◌≡◌, refl, ◌≢◌, Bool, true, false, not, Option, none, some, arith}
use obs_operator.Base.{if◌then◌else◌}
use obs_operator.Errors.{GoError}
use obs_operator.Api.{NamespacedName, Bucket}
use obs_operator.Services.{
  Services, ObsClient, BucketRequest, Request, on_bucket, list_buckets, new_client, close_client,
  get_metadata, delete_bucket, get_storage_policy, get_acl, get_versioning, get_tagging,
  delete_tagging, get_logging, get_encryption, delete_encryption, list_versions, create_bucket,
  set_storage_policy, set_acl, set_versioning, set_tagging, set_logging, set_encryption,
  delete_objects,
}
use obs_operator.Services.Action.{World, Action, call}
use obs_operator.Services.Trace.{
  All, Requests, trace_rules, Requests-handle, Requests-if, Requests-pure, Requests-fail,
  Requests-call, Requests-from_result, Requests-close_clients,
}
use obs_operator.Provider.Cache.{ResolvedClient}
use obs_operator.BucketController.Update.{
  put_storage_class, reconcile_storage_class, put_acl, reconcile_acl, put_versioning,
  reconcile_versioning, bucket_tags, put_tags, reconcile_tags, put_logging, reconcile_logging,
  clear_encryption, put_encryption, apply_encryption, reconcile_encryption, run_steps, update,
}
use obs_operator.BucketController.Reconcile.{is_deleting}
use obs_operator.BucketController.Status.{has_finalizer}

-- A bucket that is ours: the resource has the finalizer and is not being deleted.
abbrev pub IsKept : Services → Bucket → Type 0
IsKept K b = (has_finalizer K b ≡ true) × (is_deleting b ≡ false)

-- A bucket that may go: the resource has the finalizer and is being deleted.
abbrev pub IsLeaving : Services → Bucket → Type 0
IsLeaving K b = (has_finalizer K b ≡ true) × (is_deleting b ≡ true)

-- Looking whether the bucket exists is always allowed; settings are read and written, and the
-- bucket is created, only while it is kept; it is deleted only while it leaves, and its objects
-- are listed and deleted only if the resource says `forceDestroy` too.
abbrev pub PermittedOn : Services → Bucket → BucketRequest → Type 0
PermittedOn K b get_metadata = Unit
PermittedOn K b delete_bucket = IsLeaving K b
PermittedOn K b list_versions = IsLeaving K b × (b.spec.force_destroy ≡ true)
PermittedOn K b (delete_objects _) = IsLeaving K b × (b.spec.force_destroy ≡ true)
PermittedOn K b _ = IsKept K b

-- Requests to OBS name the resource's bucket only.
abbrev pub Permitted : Services → Bucket → Request → Type 0
Permitted K b (on_bucket c n q) = (n ≡ b.name) × PermittedOn K b q
Permitted K b (list_buckets c) = ⊥
Permitted K b _ = Unit

module _ (K : Services) (c : ObsClient) (b : Bucket) where
  -- A permitted request on the resource's bucket.
  pub ask-Permitted :
      (q : BucketRequest)
      → PermittedOn K b q
      → Requests (Permitted K b) (call K (on_bucket c b.name q))
  ask-Permitted q p = Requests-call {P = Permitted K b} (on_bucket c b.name q) (refl, p)

pub ruleset permitted_rules = (trace_rules, ask-Permitted)
