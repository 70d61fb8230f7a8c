-- ===== src/BucketController/Status.antt =====
-- What the controller writes to Kubernetes: `updateBucketStatus`, `patchStatus` and
-- `patchFinalizer`.
pub mod Idempotence
use obs_operator.Base.{ℕ, String, Bool, true, false, not, ◌||◌, Option, none, some, List, [], ◌∷◌}
use obs_operator.Base.{◌==◌, string_eq, nat_eq, is_some, if◌then◌else◌}
use obs_operator.Errors.{GoError}
use obs_operator.Api.{Bucket, BucketStatus, Condition, condition_eq}
use obs_operator.Services.{Services, Request, patch_bucket, patch_bucket_status}
use obs_operator.Services.Action.{World, Action, pure, fail, ◌>>=◌, ◌>>◌, read_world, call}
use obs_operator.Provider.Cache.{ResolvedClient}
use obs_operator.BucketController.Settings.{bucket_domain_name}
use obs_operator.BucketController.ErrorKinds.{ready_status_condition, is_user_correctable}

-- `bucketFinalizer`
abbrev pub bucket_finalizer : String
bucket_finalizer = "buckets.obs.wilaris.de/finalizer"

-- `reflect.DeepEqual` of two lists of conditions.
unfoldable pub conditions_equal : List Condition → List Condition → Bool
unfolding condition_eq
conditions_equal [] [] = true
conditions_equal (c ∷ cs) (d ∷ ds) = if c == d then conditions_equal cs ds else false
conditions_equal _ _ = false

-- The region and the domain name of a resolved client, and the version of read metadata.
unfoldable pub resolved_status : Bucket → Option ResolvedClient → BucketStatus → BucketStatus
unfolding bucket_domain_name
resolved_status b none s = s
resolved_status b (some r) s = record s {
  region = r.region;
  bucket_domain_name = bucket_domain_name b.name r.region;
}

unfoldable pub metadata_status : Option String → BucketStatus → BucketStatus
metadata_status none s = s
metadata_status (some version) s = record s { bucket_version = version }

-- `statusChanged`, of the original status and the next one.
unfoldable pub status_changed : BucketStatus → BucketStatus → Bool
unfolding string_eq nat_eq conditions_equal
status_changed original next =
    not (original.observed_generation == next.observed_generation)
    || not (original.region == next.region)
    || not (original.bucket_domain_name == next.bucket_domain_name)
    || not (original.bucket_version == next.bucket_version)
    || not (is_some original.last_sync_time)
    || not (conditions_equal original.conditions next.conditions)

module _ (K : Services) where
  abbrev pub has_finalizer : Bucket → Bool
  has_finalizer b = K.contains_finalizer b.finalizers bucket_finalizer

  abbrev with_finalizers : Bucket → List String → Bucket
  with_finalizers b fs = record b { metadata = record (b.metadata) { finalizers = fs } }

  -- The mutations that `patchFinalizer` is given.
  unfoldable pub with_finalizer : Bucket → Bucket
  with_finalizer b = with_finalizers b (K.add_finalizer b.finalizers bucket_finalizer)

  unfoldable pub without_finalizer : Bucket → Bucket
  without_finalizer b = with_finalizers b (K.remove_finalizer b.finalizers bucket_finalizer)

  -- The next status, at the time of the call; `last_sync_time` is still the old one.
  unfoldable pub next_status :
      ℕ → Bucket → Option ResolvedClient → Condition → Option String → BucketStatus
  unfolding resolved_status metadata_status
  next_status now b resolved condition metadata =
      let s =
        metadata_status metadata
          (resolved_status b resolved (record (b.status) { observed_generation = b.generation })) in
      record s { conditions = K.set_status_condition now s.conditions condition }

  -- The status write of a time.
  abbrev pub status_patch : Bucket → BucketStatus → World K → Request
  status_patch b next w =
      patch_bucket_status b
        (record b { status = record next { last_sync_time = some (K.now w.svc) } })

  -- The write behind the comparison.
  unfoldable pub write_status : Bucket → BucketStatus → Action K (Unit {0})
  write_status b next = do
    w ← read_world
    if status_changed b.status next then (do call K (status_patch b next w); pure tt) else pure tt

  -- `updateBucketStatus`. The object that it changes in place is not read afterwards.
  unfoldable pub update_bucket_status :
      Bucket → Option ResolvedClient → Condition → Option String → Action K (Unit {0})
  update_bucket_status b resolved condition metadata = do
    w ← read_world
    write_status b (next_status (K.now w.svc) b resolved condition metadata)

  -- What `patchStatus` returns for the error that it was given, behind a status write.
  unfoldable pub reported : Option GoError → Action K (Unit {0})
  reported none = pure tt
  reported (some e) = if is_user_correctable e then pure tt else fail e

  -- `patchStatus`
  unfoldable pub patch_status :
      Bucket → Option ResolvedClient → Option GoError → Option String → Action K (Unit {0})
  patch_status b resolved reconcile_err metadata = do
    update_bucket_status b resolved (ready_status_condition K b reconcile_err) metadata
    reported reconcile_err

  -- `patchFinalizer`, on the object that `mutate` makes of the bucket.
  unfoldable pub patch_finalizer : Bucket → Bucket → Action K Bucket
  patch_finalizer b mutated = call K (patch_bucket b mutated)
