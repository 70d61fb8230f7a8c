-- ===== src/BucketController/Reconcile.antt =====
-- `(*BucketReconciler).Reconcile`, cut at its early returns. The `ctrl.Result` is always empty;
-- what is returned here beside the error says whether the loop that empties a bucket came to its
-- end within its fuel.
pub mod MissingConfig
pub mod Conflict
use obs_operator.Base.{ℕ, String, ◌<>◌, Bool, not, ◌&&◌, Option, none, some}
use obs_operator.Base.{if◌then◌else◌}
use obs_operator.Errors.{
  GoError, bucket_already_exists, sentinel_eq, error_is, join_error, end, also, wrap,
}
use obs_operator.Api.{NamespacedName, Bucket, is_zero}
use obs_operator.Services.{Services, get_bucket}
use obs_operator.Services.Action.{Action, pure, fail, ◌>>◌, handle, call}
use obs_operator.Provider.Cache.{ResolvedClient}
use obs_operator.Provider.Credentials.{sentinel_error}
use obs_operator.BucketController.ErrorKinds.{is_bucket_not_empty, ready_status_condition}
use obs_operator.BucketController.Update.{update}
use obs_operator.BucketController.Destroy.{Progress, finished, unfinished, delete}
use obs_operator.BucketController.Status.{
  has_finalizer, with_finalizer, without_finalizer, patch_status, update_bucket_status,
  patch_finalizer,
}
use obs_operator.BucketController.Lifecycle.{
  BucketObservation, observe, create, resolve_bucket_client,
}

abbrev pub is_deleting : Bucket → Bool
is_deleting b = not (is_zero b.deletion_timestamp)

module _ (K : Services) where
  -- A `return` behind a status write.
  unfoldable pub report :
      Bucket → Option ResolvedClient → Option GoError → Option String → Action K Progress
  report b resolved e metadata = patch_status K b resolved e metadata >> pure finished

  -- Lets a deleted resource go.
  unfoldable pub release : Bucket → Action K Progress
  release b = patch_finalizer K b (without_finalizer K b) >> pure finished

  -- What follows an error of `delete`.
  unfoldable pub delete_refused : Bucket → ResolvedClient → GoError → Action K Progress
  delete_refused b resolved e =
      if is_bucket_not_empty e && not b.spec.force_destroy
      then update_bucket_status K b (some resolved) (ready_status_condition K b (some e)) none
        >> pure finished
      else report b (some resolved) (some e) none

  -- What follows a remote deletion.
  unfoldable pub after_delete : Bucket → Progress → Action K Progress
  after_delete b finished = release b
  after_delete b unfinished = pure unfinished

  -- The branch of a resource with a deletion time.
  unfoldable pub reconcile_deleting :
      ℕ → Bucket → ResolvedClient → BucketObservation → Action K Progress
  reconcile_deleting fuel b resolved seen =
      if seen.exists
      then handle (delete K resolved.obs fuel b) (after_delete b) (delete_refused b resolved)
      else release b

  -- The branch of a resource without our finalizer: report a bucket that exists, or claim the name.
  unfoldable pub reconcile_unclaimed :
      Bucket → ResolvedClient → BucketObservation → Action K Progress
  reconcile_unclaimed b resolved seen =
      if seen.exists
      then report b (some resolved)
          (some (
            sentinel_error bucket_already_exists
              ("bucket " <> b.name <> " already exists and is not managed by this Bucket")))
          none
      else patch_finalizer K b (with_finalizer K b) >> pure finished

  -- `update`, a second observation, and the final status.
  unfoldable pub sync : Bucket → ResolvedClient → Option String → Action K Progress
  sync b resolved metadata =
      handle (update K resolved.obs b)
        (λ _.
          handle (observe K resolved.obs b) (λ seen. report b (some resolved) none seen.metadata)
            (λ e. report b (some resolved) (some e) none))
        (λ e. report b (some resolved) (some e) metadata)

  -- The error behind a create conflict whose finalizer could not be removed.
  abbrev pub conflict_errors : GoError → GoError → GoError
  conflict_errors e f =
      join_error (also e (also (wrap "remove finalizer after bucket create conflict: " f) end))

  -- The finalizer goes when OBS answers that the bucket belongs to another.
  unfoldable pub create_failed : Bucket → ResolvedClient → GoError → Action K Progress
  create_failed b resolved e =
      if error_is e bucket_already_exists
      then handle (patch_finalizer K b (without_finalizer K b))
          (λ b'. report b' (some resolved) (some e) none)
          (λ f. report (without_finalizer K b) (some resolved) (some (conflict_errors e f)) none)
      else report b (some resolved) (some e) none

  -- The branch of a resource with our finalizer.
  unfoldable pub reconcile_owned : Bucket → ResolvedClient → BucketObservation → Action K Progress
  reconcile_owned b resolved seen =
      if seen.exists
      then sync b resolved seen.metadata
      else handle (create K resolved.obs b resolved.region) (λ _. sync b resolved seen.metadata)
          (create_failed b resolved)

  unfoldable pub reconcile_observed :
      ℕ → Bucket → ResolvedClient → BucketObservation → Action K Progress
  reconcile_observed fuel b resolved seen =
      if is_deleting b
      then reconcile_deleting fuel b resolved seen
      else if has_finalizer K b
      then reconcile_owned b resolved seen
      else reconcile_unclaimed b resolved seen

  unfoldable pub reconcile_resolved : ℕ → Bucket → ResolvedClient → Action K Progress
  reconcile_resolved fuel b resolved =
      handle (observe K resolved.obs b) (reconcile_observed fuel b resolved)
        (λ e. report b (some resolved) (some e) none)

  -- `Reconcile` of a bucket that was read.
  unfoldable pub reconcile_bucket : Bool → ℕ → Bucket → Action K Progress
  reconcile_bucket has_resolver fuel b =
      if is_deleting b && not (has_finalizer K b)
      then pure finished
      else handle (resolve_bucket_client K has_resolver b) (reconcile_resolved fuel b)
          (λ e. report b none (some e) none)

  unfoldable pub reconcile : Bool → ℕ → NamespacedName → Action K Progress
  reconcile has_resolver fuel key =
      handle (call K (get_bucket key)) (reconcile_bucket has_resolver fuel)
        (λ e. if K.is_not_found e then pure finished else fail e)
