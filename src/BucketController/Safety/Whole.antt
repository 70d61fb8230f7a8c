-- ===== src/BucketController/Safety/Whole.antt =====
-- The requests of the whole reconcile of a Bucket.
use obs_operator.Base.{ℕ, String, ◌≡◌, Bool, true, false, not, ◌&&◌, Option, none, some, arith}
use obs_operator.Errors.{GoError, bucket_already_exists, error_is}
use obs_operator.Api.{Bucket, BucketStatus, Condition, ProviderConfig}
use obs_operator.Services.{
  Services, ObsClient, ObsConfig, get_metadata, create_bucket, get_secret, get_provider_config,
  patch_bucket,
}
use obs_operator.Services.Action.{World}
use obs_operator.Services.Trace.{
  All, Requests, trace_rules, Requests-handle, Requests-on_error, Requests-if, Requests-pure,
  Requests-fail, Requests-call, Requests-from_result, Requests-close_clients, Requests-read_world,
  Requests-set_cache,
}
use obs_operator.Provider.Cache.{CacheKey, ResolvedClient}
use obs_operator.Provider.Resolver.{
  config_key, secret_key, cache_get, cache_set, build_client, client_for,
  resolve_provider_config_object, resolve_provider_config, resolve_bucket, with_new_cache,
}
use obs_operator.BucketController.Status.{
  has_finalizer, status_changed, status_patch, with_finalizer, without_finalizer, write_status,
  update_bucket_status, reported, patch_status, patch_finalizer,
}
use obs_operator.BucketController.Lifecycle.{
  BucketObservation, create_input, observe, create, resolve_bucket_client,
}
use obs_operator.BucketController.Reconcile.{
  is_deleting, report, release, delete_refused, after_delete, reconcile_deleting,
  reconcile_unclaimed, sync, create_failed, reconcile_owned, reconcile_observed, reconcile_resolved,
  reconcile_bucket,
}
use obs_operator.BucketController.Destroy.{Progress, finished, unfinished}
use obs_operator.BucketController.Safety.{IsKept, IsLeaving, Permitted, ask-Permitted}
use obs_operator.BucketController.Safety.Steps.{update-Permitted}
use obs_operator.BucketController.Safety.Deletion.{delete-Permitted}

-- Resolving a client asks OBS for nothing.
module _ (K : Services) (b : Bucket) where
  cache_set-Permitted :
      (key : CacheKey) (c : ObsClient) → Requests (Permitted K b) (cache_set K key c)
  unfolding cache_set
  cache_set-Permitted key c =
      Requests-handle _ _ _ Requests-read_world
        (λ w.
          Requests-handle _ _ _ (Requests-set_cache _)
            (λ _.
              Requests-handle _ _ _ (Requests-close_clients K _ _ (λ c. tt)) (λ _. Requests-pure _)
                (λ e. Requests-fail e))
            (λ e. Requests-fail e))
        (λ e. Requests-fail e)

  client_for-Permitted :
      (hit : Option ResolvedClient) (key : CacheKey) (config : ObsConfig) (revision : String)
      → Requests (Permitted K b) (client_for K hit key config revision)
  unfolding client_for build_client
  client_for-Permitted (some r) key config revision = Requests-pure _
  client_for-Permitted none key config revision = search (trace_rules, cache_set-Permitted) depth 10

  resolve_object-Permitted :
      (c : ProviderConfig) → Requests (Permitted K b) (resolve_provider_config_object K c)
  unfolding resolve_provider_config_object cache_get
  resolve_object-Permitted c =
      Requests-handle _ _ _
        (Requests-on_error _ _ (Requests-call {P = Permitted K b} (get_secret (secret_key K c)) tt))
        (λ secret.
          Requests-handle _ _ _ (Requests-from_result _)
            (λ credentials.
              Requests-handle _ _ _ (Requests-from_result _)
                (λ endpoint.
                  Requests-handle _ _ _
                    (Requests-handle _ _ _ Requests-read_world (λ w. Requests-pure _)
                      (λ e. Requests-fail e))
                    (λ hit. client_for-Permitted hit _ _ _) (λ e. Requests-fail e))
                (λ e. Requests-fail e))
            (λ e. Requests-fail e))
        (λ e. Requests-fail e)

  resolve_bucket-Permitted : Requests (Permitted K b) (resolve_bucket K b)
  unfolding resolve_bucket resolve_provider_config
  resolve_bucket-Permitted =
      Requests-handle _ _ _
        (Requests-on_error _ _
          (Requests-call {P = Permitted K b} (get_provider_config (config_key K b)) tt))
        resolve_object-Permitted (λ e. Requests-fail e)

  resolve_client-Permitted :
      (has_resolver : Bool) → Requests (Permitted K b) (resolve_bucket_client K has_resolver b)
  unfolding resolve_bucket_client with_new_cache
  resolve_client-Permitted true = resolve_bucket-Permitted
  resolve_client-Permitted false = search (trace_rules, resolve_bucket-Permitted) depth 10

-- Status writes, of any object.
module _ (K : Services) (b : Bucket) where
  write_status-Permitted :
      (b' : Bucket) (s : BucketStatus) → Requests (Permitted K b) (write_status K b' s)
  unfolding write_status
  write_status-Permitted b' s =
      Requests-handle _ _ _ Requests-read_world
        (λ w.
          Requests-if (status_changed b'.status s) _ _
            (λ _.
              Requests-handle _ _ _ (Requests-call {P = Permitted K b} (status_patch K b' s w) tt)
                (λ _. Requests-pure tt) (λ e. Requests-fail e))
            (λ _. Requests-pure tt))
        (λ e. Requests-fail e)

  update_status-Permitted :
      (b' : Bucket) (r : Option ResolvedClient) (c : Condition) (m : Option String)
      → Requests (Permitted K b) (update_bucket_status K b' r c m)
  unfolding update_bucket_status
  update_status-Permitted b' r c m =
      Requests-handle _ _ _ Requests-read_world (λ w. write_status-Permitted b' _)
        (λ e. Requests-fail e)

  reported-Permitted : (e : Option GoError) → Requests (Permitted K b) (reported K e)
  unfolding reported
  reported-Permitted none = Requests-pure tt
  reported-Permitted (some e) = search trace_rules

  report-Permitted :
      (b' : Bucket) (r : Option ResolvedClient) (e : Option GoError) (m : Option String)
      → Requests (Permitted K b) (report K b' r e m)
  unfolding report patch_status
  report-Permitted b' r e m =
      search (trace_rules, update_status-Permitted, reported-Permitted) depth 10

  release-Permitted : Requests (Permitted K b) (release K b)
  unfolding release patch_finalizer
  release-Permitted =
      Requests-handle _ _ _
        (Requests-call {P = Permitted K b} (patch_bucket b (without_finalizer K b)) tt)
        (λ _. Requests-pure finished) (λ e. Requests-fail e)

  observe-Permitted : (c : ObsClient) → Requests (Permitted K b) (observe K c b)
  unfolding observe
  observe-Permitted c =
      Requests-handle _ _ _ (ask-Permitted K c b get_metadata tt) (λ v. Requests-pure _)
        (λ e. Requests-from_result _)

module _ (K : Services) (b : Bucket) (r : ResolvedClient) where
  delete_refused-Permitted : (e : GoError) → Requests (Permitted K b) (delete_refused K b r e)
  unfolding delete_refused
  delete_refused-Permitted e =
      search (trace_rules, update_status-Permitted, report-Permitted) depth 10

  after_delete-Permitted : (p : Progress) → Requests (Permitted K b) (after_delete K b p)
  unfolding after_delete
  after_delete-Permitted finished = release-Permitted K b
  after_delete-Permitted unfinished = Requests-pure unfinished

  deleting-Permitted :
      IsLeaving K b
      → (fuel : ℕ) (seen : BucketObservation)
      → Requests (Permitted K b) (reconcile_deleting K fuel b r seen)
  unfolding reconcile_deleting
  deleting-Permitted leaving fuel seen =
      Requests-if seen.exists _ _
        (λ _.
          Requests-handle _ _ _ (delete-Permitted K r.obs b leaving fuel) after_delete-Permitted
            delete_refused-Permitted)
        (λ _. release-Permitted K b)

  unclaimed-Permitted :
      (seen : BucketObservation) → Requests (Permitted K b) (reconcile_unclaimed K b r seen)
  unfolding reconcile_unclaimed patch_finalizer
  unclaimed-Permitted seen =
      Requests-if seen.exists _ _ (λ _. report-Permitted K b b _ _ _)
        (λ _.
          Requests-handle _ _ _
            (Requests-call {P = Permitted K b} (patch_bucket b (with_finalizer K b)) tt)
            (λ _. Requests-pure finished) (λ e. Requests-fail e))

  sync-Permitted : IsKept K b → (m : Option String) → Requests (Permitted K b) (sync K b r m)
  unfolding sync
  sync-Permitted kept m =
      Requests-handle _ _ _ (update-Permitted K r.obs b kept)
        (λ _.
          Requests-handle _ _ _ (observe-Permitted K b r.obs) (λ seen. report-Permitted K b b _ _ _)
            (λ e. report-Permitted K b b _ _ _))
        (λ e. report-Permitted K b b _ _ _)

  create_failed-Permitted : (e : GoError) → Requests (Permitted K b) (create_failed K b r e)
  unfolding create_failed patch_finalizer
  create_failed-Permitted e =
      Requests-if (error_is e bucket_already_exists) _ _
        (λ _.
          Requests-handle _ _ _
            (Requests-call {P = Permitted K b} (patch_bucket b (without_finalizer K b)) tt)
            (λ b'. report-Permitted K b b' _ _ _) (λ f. report-Permitted K b _ _ _ _))
        (λ _. report-Permitted K b b _ _ _)

  owned-Permitted :
      IsKept K b
      → (seen : BucketObservation) → Requests (Permitted K b) (reconcile_owned K b r seen)
  unfolding reconcile_owned create
  owned-Permitted kept seen =
      Requests-if seen.exists _ _ (λ _. sync-Permitted kept _)
        (λ _.
          Requests-handle _ _ _
            (Requests-handle _ _ _
              (ask-Permitted K r.obs b (create_bucket (create_input K b r.region)) kept)
              (λ _. Requests-pure tt) (λ e. Requests-fail _))
            (λ _. sync-Permitted kept _) create_failed-Permitted)

  -- The three branches behind the observation, for a resource that is not already let go.
  observed-Permitted :
      (is_deleting b && not (has_finalizer K b)) ≡ false
      → (fuel : ℕ) (seen : BucketObservation)
      → Requests (Permitted K b) (reconcile_observed K fuel b r seen)
  unfolding reconcile_observed
  observed-Permitted tracked fuel seen =
      Requests-if (is_deleting b) _ _
        (λ going. deleting-Permitted (owned_of _ going tracked, going) fuel seen)
        (λ staying.
          Requests-if (has_finalizer K b) _ _ (λ ours. owned-Permitted (ours, staying) seen)
            (λ _. unclaimed-Permitted seen))
    where
      owned_of :
          (d : Bool) → d ≡ true → (d && not (has_finalizer K b)) ≡ false → has_finalizer K b ≡ true
      owned_of d going h = ground arith

module _ (K : Services) (has_resolver : Bool) (fuel : ℕ) (b : Bucket) where
  bucket-Permitted : Requests (Permitted K b) (reconcile_bucket K has_resolver fuel b)
  unfolding reconcile_bucket reconcile_resolved
  bucket-Permitted =
      Requests-if (is_deleting b && not (has_finalizer K b)) _ _ (λ _. Requests-pure finished)
        (λ tracked.
          Requests-handle _ _ _ (resolve_client-Permitted K b has_resolver)
            (λ r.
              Requests-handle _ _ _ (observe-Permitted K b r.obs)
                (observed-Permitted K b r tracked fuel) (λ e. report-Permitted K b b _ _ _))
            (λ e. report-Permitted K b b _ _ _))

  -- Whatever the services answer, a reconcile of a Bucket asks OBS only for what the state of the
  -- resource permits: every request names the resource's bucket; without the finalizer the only
  -- one is to look whether the bucket exists; the bucket is created and its settings are read and
  -- written only with the finalizer and without a deletion time; it is deleted only with both, and
  -- its objects are listed and deleted only if `forceDestroy` is set too.
  pub reconcile_bucket-Permitted :
      (w : World K)
      → All (Permitted K b) w.trace
      → All (Permitted K b) (reconcile_bucket K has_resolver fuel b w).1.trace
  reconcile_bucket-Permitted = bucket-Permitted.at
