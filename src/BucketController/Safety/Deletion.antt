-- ===== src/BucketController/Safety/Deletion.antt =====
-- The requests of `delete` and of the loop that empties a bucket.
use obs_operator.Base.{ℕ, ◌≡◌, Bool, true, false}
use obs_operator.Base.{and_right, zero, suc, List, [], ◌∷◌, ◌&&◌}
use obs_operator.Errors.{GoError}
use obs_operator.Api.{Bucket}
use obs_operator.Services.{Services, ObsClient, ObjectVersion}
use obs_operator.Services.Action.{Action, fail, handle}
use obs_operator.Services.Trace.{
  Requests, Requests-handle, Requests-if, Requests-pure, Requests-fail,
}
use obs_operator.BucketController.Safety.{IsLeaving, Permitted, permitted_rules}
use obs_operator.BucketController.ErrorKinds.{is_bucket_not_found, is_bucket_not_empty}
use obs_operator.BucketController.Destroy.{
  Progress, finished, unfinished, delete_page, delete_round, next_round, delete_all_objects,
  delete_again, delete_failed, delete,
}

module _ (K : Services) (c : ObsClient) (b : Bucket) (leaving : IsLeaving K b) where
  module _ (forced : b.spec.force_destroy ≡ true) where
    delete_page-Permitted :
        (truncated : Bool) (os : List ObjectVersion)
        → Requests (Permitted K b) (delete_page K c b.name truncated os)
    unfolding delete_page
    delete_page-Permitted truncated [] = search permitted_rules
    delete_page-Permitted truncated (o ∷ os) = search permitted_rules depth 8

    delete_round-Permitted : Requests (Permitted K b) (delete_round K c b.name)
    unfolding delete_round
    delete_round-Permitted = search (permitted_rules, delete_page-Permitted) depth 8

    next_round-Permitted :
        (rest : Action K Progress) (done : Bool)
        → Requests (Permitted K b) rest
        → Requests (Permitted K b) (next_round K c b.name rest done)
    unfolding next_round
    next_round-Permitted rest true h = Requests-pure _
    next_round-Permitted rest false h = h

    delete_all-Permitted :
        (fuel : ℕ) → Requests (Permitted K b) (delete_all_objects K c b.name fuel)
    unfolding delete_all_objects
    delete_all-Permitted zero = Requests-pure _
    delete_all-Permitted (suc fuel) =
        Requests-handle _ _ _ delete_round-Permitted
          (λ done. next_round-Permitted _ done (delete_all-Permitted fuel)) (λ e. Requests-fail e)

    delete_again-Permitted :
        (fuel : ℕ) (p : Progress) → Requests (Permitted K b) (delete_again K c fuel b p)
    unfolding delete_again
    delete_again-Permitted fuel finished = search permitted_rules depth 8
    delete_again-Permitted fuel unfinished = search permitted_rules depth 8

    emptied-Permitted :
        (fuel : ℕ)
        → Requests
            (Permitted K b)
            (handle (delete_all_objects K c b.name fuel) (delete_again K c fuel b) fail)
    emptied-Permitted fuel =
        Requests-handle _ _ _ (delete_all-Permitted fuel) (delete_again-Permitted fuel)
          (λ e. Requests-fail e)

  delete_failed-Permitted :
      (fuel : ℕ) (e : GoError) → Requests (Permitted K b) (delete_failed K c fuel b e)
  unfolding delete_failed
  delete_failed-Permitted fuel e =
      Requests-if (is_bucket_not_found e) _ _ (λ _. Requests-pure finished)
        (λ _.
          Requests-if (is_bucket_not_empty e && b.spec.force_destroy) _ _
            (λ both. emptied-Permitted (and_right (is_bucket_not_empty e) _ both) fuel)
            (λ _. Requests-fail _))

  pub delete-Permitted : (fuel : ℕ) → Requests (Permitted K b) (delete K c fuel b)
  unfolding delete
  delete-Permitted fuel = search (permitted_rules, delete_failed-Permitted) depth 8
