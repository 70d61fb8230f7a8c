-- ===== src/BucketController/Liveness/Emptied.antt =====
-- The loop that empties a bucket comes to its end when OBS grants the deletion.
use obs_operator.Base.{
  ℕ, zero, suc, ◌<◌, String, ◌≡◌, ◌≢◌, refl, ap, ◌∙◌, Bool, true, false, none, List, [], ◌∷◌, ltb,
  length, arith,
}
use obs_operator.Errors.{GoError, Result, ok, err}
use obs_operator.Api.{Bucket}
use obs_operator.Services.{
  Services, ObsClient, ObjectVersion, ListVersionsOutput, on_bucket, delete_bucket, list_versions,
  delete_objects, get_metadata, patch_bucket,
}
use obs_operator.Services.Action.{Action, call, wrapped, check_context, from_error}
use obs_operator.Services.Serving.{
  Leads, Serves, Serves-pure, Serves-handle, Serves-read_world, Leads-pure, Leads-handle, Leads-if,
  Leads-call,
}
use obs_operator.BucketController.ErrorKinds.{is_bucket_not_found, is_bucket_not_empty}
use obs_operator.BucketController.Destroy.{
  Progress, finished, unfinished, page_objects, delete_page, delete_round, next_round,
  delete_all_objects,
}
use obs_operator.BucketController.Destroy.Emptying.{
  ListsAndDeletes, delete_all_objects_empties, delete_all_objects_terminates,
}

-- OBS grants the deletion: it lists, deletes the objects that it is given, refuses to delete the
-- bucket exactly while it has objects, and the context of the reconcile is not done. The API server
-- takes the patch of the Bucket.
pub record LetsGo (K : Services) (c : ObsClient) (n : String)
    (objects : K.State → List ObjectVersion) (exists : K.State → Bool) (stored : K.State → Bucket)
    : Type 0 where
  pub lists_and_deletes : ListsAndDeletes K c n objects
  pub runs_on : (s : K.State) → K.ctx_err s ≡ none
  pub finds :
      (s : K.State)
      → exists s ≡ true
      → (v : String) × ((K.perform (on_bucket c n get_metadata) s).0 ≡ ok v)
  pub finding_keeps :
      (s : K.State)
      → let t = (K.perform (on_bucket c n get_metadata) s).1 in
        (objects t ≡ objects s) × (exists t ≡ exists s)
  pub lists :
      (s : K.State)
      → (out : ListVersionsOutput) × ((K.perform (on_bucket c n list_versions) s).0 ≡ ok out)
  pub deletes :
      (os : List ObjectVersion) (s : K.State)
      → (K.perform (on_bucket c n (delete_objects os)) s).0 ≡ ok 0
  pub deletes_empty :
      (s : K.State)
      → objects s ≡ []
      → let (a, t) = K.perform (on_bucket c n delete_bucket) s in (a ≡ ok tt) × (exists t ≡ false)
  pub refuses :
      (s : K.State) (o : ObjectVersion) (os : List ObjectVersion)
      → objects s ≡ o ∷ os
      → let (a, t) = K.perform (on_bucket c n delete_bucket) s in
        (e : GoError) × (a ≡ err e)
        × (is_bucket_not_empty e ≡ true)
        × (is_bucket_not_found e ≡ false)
        × (objects t ≡ objects s)
  pub patches :
      (b b' : Bucket) (s : K.State)
      → let (a, t) = K.perform (patch_bucket b b') s in
        (a ≡ ok b') × (exists t ≡ exists s) × (stored t ≡ b')

abbrev Always : {S : Type 0} → S → Type 0
Always _ = Unit

module _ (K : Services) (c : ObsClient) (n : String) (objects : K.State → List ObjectVersion)
    (exists : K.State → Bool) (stored : K.State → Bucket)
    (L : LetsGo K c n objects exists stored) where
  context-Serves : Serves {K = K} Always (check_context K)
  unfolding from_error
  context-Serves = Serves-handle _ _ _ Serves-read_world λ w. rw (L.runs_on w.svc) (Serves-pure tt)

  page-Serves :
      (truncated : Bool) (page : List ObjectVersion)
      → Serves {K = K} Always (delete_page K c n truncated page)
  unfolding delete_page
  page-Serves truncated [] = Serves-pure true
  page-Serves truncated (o ∷ os) = Leads-handle _ _ _ deletion λ failures.
      Leads-if (ltb 0 failures) _ _
        (λ some_failed. record {
          at = λ w none_failed. absurd (clash failures some_failed none_failed);
        })
        (λ _. Leads-pure _ (λ s _. tt))
    where
      deletion :
          Leads {K = K} Always
            (λ failures _. failures ≡ 0)
            (wrapped "delete bucket object versions: "
              (call K (on_bucket c n (delete_objects (o ∷ os)))))
      deletion =
          Leads-handle _ _ _
            (Leads-call (on_bucket c n (delete_objects (o ∷ os)))
              λ s _. (0, L.deletes (o ∷ os) s, refl))
            (λ k. Leads-pure k (λ s e. e))

      clash : (k : ℕ) → ltb 0 k ≡ true → k ≡ 0 → ⊥
      clash k h e = ground (arith, h, e)

  round-Serves : Serves {K = K} Always (delete_round K c n)
  unfolding delete_round
  round-Serves = Serves-handle _ _ _ context-Serves λ _.
      Serves-handle _ _ _
        (Serves-handle _ _ _
          (Leads-call (on_bucket c n list_versions) λ s _. let (out, e) = L.lists s in (out, e, tt))
          (λ out. Serves-pure out))
        (λ out. page-Serves out.is_truncated (page_objects out))

  next-Serves :
      (rest : Action K Progress)
      → Serves Always rest
      → (done : Bool) → Serves Always (next_round K c n rest done)
  unfolding next_round
  next-Serves rest h true = Serves-pure finished
  next-Serves rest h false = h

  loop-Serves : (fuel : ℕ) → Serves {K = K} Always (delete_all_objects K c n fuel)
  unfolding delete_all_objects
  loop-Serves zero = Serves-pure unfinished
  loop-Serves (suc fuel) =
      Serves-handle _ _ _ round-Serves
        λ done. next-Serves (delete_all_objects K c n fuel) (loop-Serves fuel) done

  ended : (p : Progress) (a : Result Progress) → a ≡ ok p → a ≢ ok unfinished → p ≡ finished
  ended finished a e n = refl
  ended unfinished a e n = absurd (n e)

  -- With enough fuel the loop ends, and the bucket is empty.
  pub emptied :
      (fuel : ℕ)
      → Leads {K = K}
          (λ s. length (objects s) < fuel)
          (λ p s. (p ≡ finished) × (objects s ≡ []))
          (delete_all_objects K c n fuel)
  emptied fuel = record {
    at = λ w enough.
        let (p, e, _) = (loop-Serves fuel).at w tt in
        let f =
          ended p _ e
            (delete_all_objects_terminates K c n objects L.lists_and_deletes fuel w enough) in
        (
          p,
          e,
          (f, delete_all_objects_empties K c n objects L.lists_and_deletes fuel w (e ∙ ap ok f)),
        );
  }
