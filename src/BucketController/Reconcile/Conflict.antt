-- ===== src/BucketController/Reconcile/Conflict.antt =====
-- `Reconcile` of an owned Bucket that OBS refuses to create.
use obs_operator.Base.{◌≡◌, refl, ap, ◌∙◌, true, false, none, some}
use obs_operator.Errors.{GoError, Result, ok, err, error_is, sentinel_eq, bucket_already_exists}
use obs_operator.Api.{Bucket}
use obs_operator.Services.{Services, on_bucket, create_bucket, patch_bucket}
use obs_operator.Services.Action.{World, pure, fail, handle, call, ◌>>◌}
use obs_operator.Services.Run.{handle_err}
use obs_operator.Provider.Cache.{ResolvedClient}
use obs_operator.BucketController.ErrorKinds.{
  is_create_bucket_conflict, is_user_correctable, unwrapped_verdict, is_user_correctable_type,
  ready_status_condition,
}
use obs_operator.BucketController.Status.{without_finalizer, update_bucket_status, patch_finalizer}
use obs_operator.BucketController.Destroy.{finished}
use obs_operator.BucketController.Lifecycle.{BucketObservation, create_input, create_error, create}
use obs_operator.BucketController.Reconcile.{reconcile_owned, sync, create_failed, report}
use obs_operator.BucketController.Reconcile.MissingConfig.{report_correctable}

conflict-correctable :
    (K : Services) (b : Bucket) (e : GoError)
    → is_create_bucket_conflict e ≡ true
    → (error_is (create_error K b e) bucket_already_exists ≡ true)
      × (is_user_correctable (create_error K b e) ≡ true)
unfolding create_error error_is sentinel_eq is_user_correctable unwrapped_verdict
    is_user_correctable_type
conflict-correctable K b e h = rw h (refl, refl)

module _ (K : Services) (b : Bucket) (r : ResolvedClient) where
  create_conflict :
      (e : GoError) (w : World K)
      → (K.perform (on_bucket r.obs b.name (create_bucket (create_input K b r.region))) w.svc).0
        ≡ err e
      → create K r.obs b r.region w ≡ (
        err (create_error K b e),
        (call K (on_bucket r.obs b.name (create_bucket (create_input K b r.region))) w).1,
      )
  unfolding create handle call fail
  create_conflict e w h = rw h refl

  after_conflict :
      (bad : GoError) (b' : Bucket) (w : World K)
      → error_is bad bucket_already_exists ≡ true
      → (K.perform (patch_bucket b (without_finalizer K b)) w.svc).0 ≡ ok b'
      → create_failed K b r bad w
        ≡ report K b' (some r) (some bad) none (call K (patch_bucket b (without_finalizer K b)) w).1
  unfolding create_failed patch_finalizer handle call
  after_conflict bad b' w t h = rw (t, h) refl

  -- When a Bucket that has our finalizer is not found in OBS, and OBS refuses to create it because
  -- the bucket exists, then the finalizer is taken back; if that succeeds, the status of the Bucket
  -- that the API server answered with is written for the conflict, and the reconcile returns what
  -- that write returns: the conflict is no error to retry.
  pub reconcile_owned_conflict :
      (seen : BucketObservation) (e : GoError) (b' : Bucket) (w : World K)
      → seen.exists ≡ false
      → (K.perform (on_bucket r.obs b.name (create_bucket (create_input K b r.region))) w.svc).0
        ≡ err e
      → is_create_bucket_conflict e ≡ true
      → (K.perform
          (patch_bucket b (without_finalizer K b))
          (call K (on_bucket r.obs b.name (create_bucket (create_input K b r.region))) w).1.svc).0
        ≡ ok b'
      → reconcile_owned K b r seen w
        ≡ (update_bucket_status K b'
                (some r)
                (ready_status_condition K b' (some (create_error K b e)))
                none
              >> pure finished)
            (call K
              (patch_bucket b (without_finalizer K b))
              (call K (on_bucket r.obs b.name (create_bucket (create_input K b r.region))) w).1).1
  unfolding reconcile_owned
  reconcile_owned_conflict seen e b' w missing refused conflict patched =
      let made = create_conflict e w refused in
      let (exists, correctable) = conflict-correctable K b e conflict in
      let w1 = (call K (on_bucket r.obs b.name (create_bucket (create_input K b r.region))) w).1 in
      let w2 = (call K (patch_bucket b (without_finalizer K b)) w1).1 in
      let bad = create_error K b e in
      rw missing (
        handle_err (create K r.obs b r.region) (λ (x : Unit {0}). sync K b r seen.metadata)
          (create_failed K b r) w (ap (λ (y : Result (Unit {0}) × World K). y.0) made)
        ∙ ap (λ (y : Result (Unit {0}) × World K). create_failed K b r bad y.1) made
        ∙ after_conflict bad b' w1 exists patched
        ∙ report_correctable K b' (some r) bad w2 correctable)
