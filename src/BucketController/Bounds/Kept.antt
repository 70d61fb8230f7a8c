-- ===== src/BucketController/Bounds/Kept.antt =====
-- The requests of a reconcile of a Bucket that is not being deleted, behind the resolution of its
-- client.
use obs_operator.Base.{String, ℕ, ◌+◌, ◌≤◌, ◌≡◌, false, Option, none, some, length, arith}
use obs_operator.Errors.{GoError, error_is, bucket_already_exists, sentinel_eq}
use obs_operator.Api.{Bucket, BucketStatus}
use obs_operator.Services.{Services, on_bucket, get_metadata, create_bucket, patch_bucket}
use obs_operator.BucketController.Destroy.{finished}
use obs_operator.Services.Action.{World, call}
use obs_operator.Services.Costs.{
  Costs, Costs-le, Costs-answer, Costs-pure, Costs-fail, Costs-handle, Costs-if, Costs-call,
  Costs-read_world, Costs-from_result,
}
use obs_operator.Provider.Cache.{ResolvedClient}
use obs_operator.BucketController.Bounds.Steps.{update-Costs}
use obs_operator.BucketController.Lifecycle.{
  BucketObservation, observe, observe_failed, seen_bucket, create, create_input, create_error,
}
use obs_operator.BucketController.Status.{
  status_changed, status_patch, write_status, update_bucket_status, reported, patch_status,
  patch_finalizer, has_finalizer, with_finalizer, without_finalizer,
}
use obs_operator.BucketController.Reconcile.{
  is_deleting, report, sync, create_failed, reconcile_owned, reconcile_unclaimed,
  reconcile_observed, reconcile_resolved,
}

module _ (K : Services) where
  write_status-Costs : (b : Bucket) (next : BucketStatus) → Costs 1 (write_status K b next)
  unfolding write_status
  write_status-Costs b next =
      Costs-handle 0 1 _ _ _ Costs-read_world
        (λ w.
          Costs-if (status_changed b.status next) _ _
            (Costs-answer _ _ _ (Costs-call (status_patch K b next w)) (λ _. Costs-pure tt)
              (λ e. Costs-fail e))
            (Costs-pure tt))
        (λ e. Costs-fail e)

  reported-Costs : (e : Option GoError) → Costs {K = K} 0 (reported K e)
  unfolding reported
  reported-Costs none = Costs-pure tt
  reported-Costs (some e) = Costs-if _ _ _ (Costs-pure tt) (Costs-fail e)

  report-Costs :
      (b : Bucket) (r : Option ResolvedClient) (e : Option GoError) (m : Option String)
      → Costs 1 (report K b r e m)
  unfolding report patch_status update_bucket_status
  report-Costs b r e m =
      Costs-answer _ _ _
        (Costs-answer _ _ _
          (Costs-handle 0 1 _ _ _ Costs-read_world (λ w. write_status-Costs b _)
            (λ x. Costs-fail x))
          (λ _. reported-Costs e) (λ x. Costs-fail x))
        (λ _. Costs-pure finished) (λ x. Costs-fail x)

  patch_finalizer-Costs : (b b' : Bucket) → Costs 1 (patch_finalizer K b b')
  unfolding patch_finalizer
  patch_finalizer-Costs b b' = Costs-call (patch_bucket b b')

  module _ (b : Bucket) (r : ResolvedClient) where
    observe-Costs : Costs 1 (observe K r.obs b)
    unfolding observe
    observe-Costs =
        Costs-answer (call K (on_bucket r.obs b.name get_metadata)) _ _
          (Costs-call (on_bucket r.obs b.name get_metadata)) (λ v. Costs-pure (seen_bucket K v))
          (λ e. Costs-from_result (observe_failed K b e))

    sync-Costs : (m : Option String) → Costs 14 (sync K b r m)
    unfolding sync
    sync-Costs m =
        Costs-handle 12 2 _ _ _ (update-Costs K r.obs b)
          (λ _.
            Costs-handle 1 1 _ _ _ observe-Costs (λ seen. report-Costs b _ _ _)
              (λ e. report-Costs b _ _ _))
          (λ e. Costs-le 1 2 (omega arith) (report-Costs b _ _ _))

    create_failed-Costs : (e : GoError) → Costs 2 (create_failed K b r e)
    unfolding create_failed
    create_failed-Costs e =
        Costs-if (error_is e bucket_already_exists) _ _
          (Costs-handle 1 1 _ _ _ (patch_finalizer-Costs b (without_finalizer K b))
            (λ b'. report-Costs b' _ _ _) (λ f. report-Costs _ _ _ _))
          (Costs-le 1 2 (omega arith) (report-Costs b _ _ _))

    create-Costs : Costs 1 (create K r.obs b r.region)
    unfolding create
    create-Costs =
        Costs-answer _ _ _
          (Costs-call (on_bucket r.obs b.name (create_bucket (create_input K b r.region))))
          (λ _. Costs-pure tt) (λ e. Costs-fail (create_error K b e))

    owned-Costs : (seen : BucketObservation) → Costs 15 (reconcile_owned K b r seen)
    unfolding reconcile_owned
    owned-Costs seen =
        Costs-if seen.exists _ _ (Costs-le 14 15 (omega arith) (sync-Costs seen.metadata)) (
          Costs-handle 1 14 _ _ _ create-Costs (λ _. sync-Costs seen.metadata)
            (λ e. Costs-le 2 14 (omega arith) (create_failed-Costs e)))

    unclaimed-Costs : (seen : BucketObservation) → Costs 15 (reconcile_unclaimed K b r seen)
    unfolding reconcile_unclaimed
    unclaimed-Costs seen =
        Costs-if seen.exists _ _ (Costs-le 1 15 (omega arith) (report-Costs b _ _ _)) (
          Costs-le 1 15 (omega arith) (
            Costs-answer _ _ _ (patch_finalizer-Costs b (with_finalizer K b))
              (λ _. Costs-pure finished) (λ e. Costs-fail e)))

    kept-Costs : is_deleting b ≡ false → (fuel : ℕ) → Costs 16 (reconcile_resolved K fuel b r)
    unfolding reconcile_resolved reconcile_observed
    kept-Costs not_deleting fuel =
        Costs-handle 1 15 _ _ _ observe-Costs
          (λ seen.
            rw not_deleting
              (Costs-if (has_finalizer K b) _ _ (owned-Costs seen) (unclaimed-Costs seen)))
          (λ e. Costs-le 1 15 (omega arith) (report-Costs b _ _ _))

    -- A reconcile of a Bucket that is not being deleted makes at most sixteen requests once its
    -- client is resolved, whatever the services answer.
    pub reconcile_resolved-requests_le :
        (fuel : ℕ) (w : World K)
        → is_deleting b ≡ false
        → length (reconcile_resolved K fuel b r w).1.trace ≤ length w.trace + 16
    reconcile_resolved-requests_le fuel w not_deleting = (kept-Costs not_deleting fuel).at w
