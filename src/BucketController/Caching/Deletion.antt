-- ===== src/BucketController/Caching/Deletion.antt =====
-- `delete` and the loop that empties a bucket leave the cache alone.
use obs_operator.Base.{ℕ, Bool, true, false, zero, suc, List, [], ◌∷◌}
use obs_operator.Errors.{GoError}
use obs_operator.Api.{Bucket}
use obs_operator.Services.{Services, ObsClient, ObjectVersion}
use obs_operator.Services.Action.{Action}
use obs_operator.Provider.Cache.{Cache}
use obs_operator.Provider.Resolver.Coherence.{
  KeepsCache, KeepsCache-pure, KeepsCache-fail, KeepsCache-handle, KeepsCache-from_error,
  cache_rules,
}
use obs_operator.BucketController.Destroy.{
  Progress, finished, unfinished, delete_page, delete_round, next_round, delete_all_objects,
  delete_again, delete_failed, delete,
}

module _ (Q : Cache → Type 0) (K : Services) (c : ObsClient) (b : Bucket) where
  delete_page-KeepsCache :
      (truncated : Bool) (os : List ObjectVersion)
      → KeepsCache Q (delete_page K c b.name truncated os)
  unfolding delete_page
  delete_page-KeepsCache truncated [] = KeepsCache-pure true
  delete_page-KeepsCache truncated (o ∷ os) = search cache_rules depth 8

  delete_round-KeepsCache : KeepsCache Q (delete_round K c b.name)
  unfolding delete_round
  delete_round-KeepsCache =
      search (cache_rules, delete_page-KeepsCache, KeepsCache-from_error) depth 8

  next_round-KeepsCache :
      (rest : Action K Progress) (done : Bool)
      → KeepsCache Q rest
      → KeepsCache Q (next_round K c b.name rest done)
  unfolding next_round
  next_round-KeepsCache rest true h = KeepsCache-pure _
  next_round-KeepsCache rest false h = h

  delete_all-KeepsCache : (fuel : ℕ) → KeepsCache Q (delete_all_objects K c b.name fuel)
  unfolding delete_all_objects
  delete_all-KeepsCache zero = KeepsCache-pure _
  delete_all-KeepsCache (suc fuel) =
      KeepsCache-handle _ _ _ delete_round-KeepsCache
        (λ done. next_round-KeepsCache _ done (delete_all-KeepsCache fuel)) KeepsCache-fail

  delete_again-KeepsCache : (fuel : ℕ) (p : Progress) → KeepsCache Q (delete_again K c fuel b p)
  unfolding delete_again
  delete_again-KeepsCache fuel finished = search cache_rules depth 8
  delete_again-KeepsCache fuel unfinished = KeepsCache-pure _

  delete_failed-KeepsCache : (fuel : ℕ) (e : GoError) → KeepsCache Q (delete_failed K c fuel b e)
  unfolding delete_failed
  delete_failed-KeepsCache fuel e =
      search (cache_rules, delete_all-KeepsCache, delete_again-KeepsCache) depth 8

  pub delete-KeepsCache : (fuel : ℕ) → KeepsCache Q (delete K c fuel b)
  unfolding delete
  delete-KeepsCache fuel = search (cache_rules, delete_failed-KeepsCache) depth 8
