-- ===== src/BucketController/Destroy.antt =====
-- Deleting the remote bucket: `delete`, and `deleteAllBucketObjects` with its unbounded loop on
-- fuel.
pub mod Emptying
use obs_operator.Base.{ℕ, zero, suc, String, ◌<>◌, Bool, true, false, not, ◌&&◌}
use obs_operator.Base.{List, [], ◌∷◌, ◌++◌, ltb, nat_eq, length, if◌then◌else◌}
use obs_operator.Base.Text.{decimal}
use obs_operator.Errors.{GoError, ok, err, foreign, wrap}
use obs_operator.Api.{Bucket}
use obs_operator.Services.{
  Services, ObsClient, ObjectVersion, ListVersionsOutput, on_bucket, delete_bucket, list_versions,
  delete_objects,
}
use obs_operator.Services.Action.{
  Action, pure, fail, ◌>>=◌, ◌>>◌, handle, wrapped, call, check_context,
}
use obs_operator.BucketController.ErrorKinds.{is_bucket_not_found, is_bucket_not_empty}

-- Whether the loop came to its end within its fuel.
pub data Progress : Type 0 where
  finished unfinished : Progress

-- The versions and the delete markers of a page, as objects to delete.
unfoldable pub page_objects : ListVersionsOutput → List ObjectVersion
page_objects output = output.versions ++ output.delete_markers

-- Without a wrapped error.
unfoldable pub deletion_errors : ℕ → GoError
unfolding decimal
deletion_errors n = foreign (record {
  text = "delete bucket object versions: OBS returned " <> decimal n <> " object deletion errors";
  reason = "";
})

module _ (K : Services) (client : ObsClient) (bucket_name : String) where
  -- The deletion of one page; the result says whether the loop ends behind it.
  unfoldable pub delete_page : Bool → List ObjectVersion → Action K Bool
  delete_page is_truncated [] = pure true
  delete_page is_truncated (o ∷ os) = do
    failures ←
        wrapped "delete bucket object versions: "
          (call K (on_bucket client bucket_name (delete_objects (o ∷ os))))
    if ltb 0 failures
        then fail (deletion_errors failures)
        else pure (ltb (length (o ∷ os)) 1000 && not is_truncated)

  -- One round of the loop.
  unfoldable pub delete_round : Action K Bool
  delete_round = do
    check_context K
    output ←
        wrapped "list bucket object versions: "
          (call K (on_bucket client bucket_name list_versions))
    delete_page output.is_truncated (page_objects output)

  -- `rest` stands for the rounds that are left.
  unfoldable pub next_round : Action K Progress → Bool → Action K Progress
  next_round rest true = pure finished
  next_round rest false = rest

  unfoldable pub delete_all_objects : ℕ → Action K Progress
  delete_all_objects zero = pure unfinished
  delete_all_objects (suc fuel) =
      let rest = delete_all_objects fuel in do done ← delete_round; next_round rest done

module _ (K : Services) (client : ObsClient) (fuel : ℕ) where
  -- `DeleteBucket` a second time, behind the loop.
  unfoldable pub delete_again : Bucket → Progress → Action K Progress
  delete_again b unfinished = pure unfinished
  delete_again b finished = do
    wrapped ("delete bucket " <> b.name <> ": ") (call K (on_bucket client b.name delete_bucket))
    pure finished

  -- What `delete` does with the error of the first `DeleteBucket`.
  unfoldable pub delete_failed : Bucket → GoError → Action K Progress
  delete_failed b e =
      if is_bucket_not_found e
      then pure finished
      else if is_bucket_not_empty e && b.spec.force_destroy
      then (do progress ← delete_all_objects K client b.name fuel; delete_again b progress)
      else fail (wrap ("delete bucket " <> b.name <> ": ") e)

  -- `delete`
  unfoldable pub delete : Bucket → Action K Progress
  delete b =
      handle (call K (on_bucket client b.name delete_bucket)) (λ _. pure finished) (delete_failed b)
