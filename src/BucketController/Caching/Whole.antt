-- ===== src/BucketController/Caching/Whole.antt =====
-- The whole reconcile of a Bucket keeps what the resolutions keep of the cache.
use obs_operator.Base.{ℕ, String, true, Option, none, some}
use obs_operator.Errors.{GoError}
use obs_operator.Api.{ProviderConfig, NamespacedName, Bucket, BucketStatus, Condition}
use obs_operator.Services.{Services, ObsClient, patch_bucket}
use obs_operator.Provider.Cache.{Cache, ResolvedClient}
use obs_operator.Provider.Resolver.Coherence.{
  KeepsCache, KeepsCache-pure, KeepsCache-call, cache_rules,
}
use obs_operator.Provider.Resolver.{
  resolve_provider_config_object, resolve_provider_config, resolve_bucket,
}
use obs_operator.BucketController.Status.{
  write_status, update_bucket_status, reported, patch_status, patch_finalizer,
}
use obs_operator.BucketController.Lifecycle.{
  BucketObservation, observe, create, resolve_bucket_client,
}
use obs_operator.BucketController.Reconcile.{
  report, release, delete_refused, after_delete, reconcile_deleting, reconcile_unclaimed, sync,
  create_failed, reconcile_owned, reconcile_observed, reconcile_resolved, reconcile_bucket,
  reconcile,
}
use obs_operator.BucketController.Destroy.{Progress, finished, unfinished}
use obs_operator.BucketController.Caching.Settings.{update-KeepsCache}
use obs_operator.BucketController.Caching.Deletion.{delete-KeepsCache}

module _ (Q : Cache → Type 0) (K : Services) where
  resolve_bucket-KeepsCache :
      ((c : ProviderConfig) → KeepsCache Q (resolve_provider_config_object K c))
      → (b : Bucket) → KeepsCache Q (resolve_bucket K b)
  unfolding resolve_bucket resolve_provider_config
  resolve_bucket-KeepsCache resolves b = search (cache_rules, resolves) depth 8

  write_status-KeepsCache : (b : Bucket) (s : BucketStatus) → KeepsCache Q (write_status K b s)
  unfolding write_status
  write_status-KeepsCache b s = search cache_rules depth 8

  update_status-KeepsCache :
      (b : Bucket) (r : Option ResolvedClient) (c : Condition) (m : Option String)
      → KeepsCache Q (update_bucket_status K b r c m)
  unfolding update_bucket_status
  update_status-KeepsCache b r c m = search (cache_rules, write_status-KeepsCache) depth 8

  reported-KeepsCache : (e : Option GoError) → KeepsCache Q (reported K e)
  unfolding reported
  reported-KeepsCache none = KeepsCache-pure tt
  reported-KeepsCache (some e) = search cache_rules

  report-KeepsCache :
      (b : Bucket) (r : Option ResolvedClient) (e : Option GoError) (m : Option String)
      → KeepsCache Q (report K b r e m)
  unfolding report patch_status
  report-KeepsCache b r e m =
      search (cache_rules, update_status-KeepsCache, reported-KeepsCache) depth 10

  patch_finalizer-KeepsCache : (b b' : Bucket) → KeepsCache Q (patch_finalizer K b b')
  unfolding patch_finalizer
  patch_finalizer-KeepsCache b b' = KeepsCache-call (patch_bucket b b')

  release-KeepsCache : (b : Bucket) → KeepsCache Q (release K b)
  unfolding release
  release-KeepsCache b = search (cache_rules, patch_finalizer-KeepsCache) depth 8

  observe-KeepsCache : (c : ObsClient) (b : Bucket) → KeepsCache Q (observe K c b)
  unfolding observe
  observe-KeepsCache c b = search cache_rules depth 8

module _ (Q : Cache → Type 0) (K : Services) (b : Bucket) (r : ResolvedClient) where
  delete_refused-KeepsCache : (e : GoError) → KeepsCache Q (delete_refused K b r e)
  unfolding delete_refused
  delete_refused-KeepsCache e =
      search (cache_rules, update_status-KeepsCache, report-KeepsCache) depth 10

  after_delete-KeepsCache : (p : Progress) → KeepsCache Q (after_delete K b p)
  unfolding after_delete
  after_delete-KeepsCache finished = release-KeepsCache Q K b
  after_delete-KeepsCache unfinished = KeepsCache-pure unfinished

  deleting-KeepsCache :
      (fuel : ℕ) (seen : BucketObservation) → KeepsCache Q (reconcile_deleting K fuel b r seen)
  unfolding reconcile_deleting
  deleting-KeepsCache fuel seen =
      search
        (
          cache_rules, delete-KeepsCache, after_delete-KeepsCache, delete_refused-KeepsCache,
          release-KeepsCache,
        )
        depth 10

  unclaimed-KeepsCache : (seen : BucketObservation) → KeepsCache Q (reconcile_unclaimed K b r seen)
  unfolding reconcile_unclaimed
  unclaimed-KeepsCache seen =
      search (cache_rules, patch_finalizer-KeepsCache, report-KeepsCache) depth 10

  sync-KeepsCache : (m : Option String) → KeepsCache Q (sync K b r m)
  unfolding sync
  sync-KeepsCache m =
      search (cache_rules, update-KeepsCache, observe-KeepsCache, report-KeepsCache) depth 10

  create_failed-KeepsCache : (e : GoError) → KeepsCache Q (create_failed K b r e)
  unfolding create_failed
  create_failed-KeepsCache e =
      search (cache_rules, patch_finalizer-KeepsCache, report-KeepsCache) depth 10

  owned-KeepsCache : (seen : BucketObservation) → KeepsCache Q (reconcile_owned K b r seen)
  unfolding reconcile_owned create
  owned-KeepsCache seen = search (cache_rules, sync-KeepsCache, create_failed-KeepsCache) depth 10

  observed-KeepsCache :
      (fuel : ℕ) (seen : BucketObservation) → KeepsCache Q (reconcile_observed K fuel b r seen)
  unfolding reconcile_observed
  observed-KeepsCache fuel seen =
      search (cache_rules, deleting-KeepsCache, owned-KeepsCache, unclaimed-KeepsCache) depth 10

module _ (Q : Cache → Type 0) (K : Services)
    (resolves : (c : ProviderConfig) → KeepsCache Q (resolve_provider_config_object K c))
    (fuel : ℕ) where
  bucket-KeepsCache : (b : Bucket) → KeepsCache Q (reconcile_bucket K true fuel b)
  unfolding reconcile_bucket reconcile_resolved resolve_bucket_client
  bucket-KeepsCache b =
      search
        (
          cache_rules,
          resolve_bucket-KeepsCache Q K resolves,
          observe-KeepsCache,
          observed-KeepsCache,
          report-KeepsCache,
        )
        depth 12

  pub reconcile-KeepsCache : (key : NamespacedName) → KeepsCache Q (reconcile K true fuel key)
  unfolding reconcile
  reconcile-KeepsCache key = search (cache_rules, bucket-KeepsCache) depth 10
