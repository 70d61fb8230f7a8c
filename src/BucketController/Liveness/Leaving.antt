-- ===== src/BucketController/Liveness/Leaving.antt =====
-- A reconcile of a Bucket that has our finalizer, is being deleted, and lets its objects go.
use obs_operator.Base.{
  ℕ, ◌<◌, ◌≡◌, ◌⊎◌, refl, sym, ap, ◌∙◌, Bool, true, false, ◌&&◌, List, [], ◌∷◌, inl, inr, length,
  arith,
}
use mathlib.Core.Path.{subst}
use obs_operator.Errors.{GoError, Result, ok}
use obs_operator.Api.{Bucket}
use obs_operator.Services.{
  Services, ObjectVersion, on_bucket, delete_bucket, get_metadata, patch_bucket,
}
use obs_operator.Services.Action.{World, pure, call}
use obs_operator.Services.Run.{handle_ok, handle_err}
use obs_operator.Services.Serving.{
  Leads, Leads-pure, Leads-handle, Leads-if, Leads-from, Leads-call,
}
use obs_operator.Provider.Cache.{ResolvedClient}
use obs_operator.BucketController.ErrorKinds.{is_bucket_not_found, is_bucket_not_empty}
use obs_operator.BucketController.Destroy.{
  Progress, finished, unfinished, delete_again, delete_failed, delete,
}
use obs_operator.BucketController.Status.{without_finalizer, patch_finalizer}
use obs_operator.BucketController.Lifecycle.{BucketObservation, observe, seen_bucket}
use obs_operator.BucketController.Reconcile.{
  is_deleting, release, after_delete, reconcile_deleting, reconcile_observed, reconcile_resolved,
}
use obs_operator.BucketController.Liveness.Emptied.{LetsGo, emptied}

clash : {x : Bool} → x ≡ true → x ≡ false → ⊥
clash h k = cc

not_both : unfinished ≡ finished → ⊥
not_both f = cc

both : (x y : Bool) → x ≡ true → y ≡ true → (x && y) ≡ true
both x y h k = ground arith

list_cases :
    (xs : List ObjectVersion)
    → (xs ≡ []) ⊎ ((o : ObjectVersion) × (os : List ObjectVersion) × (xs ≡ o ∷ os))
list_cases [] = inl refl
list_cases (o ∷ os) = inr (o, os, refl)

module _ (K : Services) (r : ResolvedClient) (b : Bucket) (objects : K.State → List ObjectVersion)
    (exists : K.State → Bool) (stored : K.State → Bucket)
    (L : LetsGo K r.obs b.name objects exists stored) (fuel : ℕ) where
  -- The fuel is enough for the objects.
  abbrev IsEnough : K.State → Type 0
  IsEnough s = length (objects s) < fuel

  abbrev IsGone : Progress → K.State → Type 0
  IsGone p s = (p ≡ finished) × (exists s ≡ false)

  again-Leads :
      (p : Progress)
      → Leads {K = K}
          (λ s. (p ≡ finished) × (objects s ≡ []))
          IsGone
          (delete_again K r.obs fuel b p)
  unfolding delete_again
  again-Leads unfinished = record { at = λ w (f, _). absurd (not_both f) }
  again-Leads finished =
      Leads-handle _ _ _
        (Leads-handle _ _ _
          (Leads-call (on_bucket r.obs b.name delete_bucket) {J = λ _ s. exists s ≡ false}
            λ s (_, e). let (a, gone) = L.deletes_empty s e in (tt, a, gone))
          (λ _. Leads-pure tt (λ s i. i)))
        (λ _. Leads-pure finished (λ s i. (refl, i)))

  failed-Leads :
      b.spec.force_destroy ≡ true
      → (e : GoError) → is_bucket_not_empty e ≡ true
      → is_bucket_not_found e ≡ false
      → Leads {K = K} IsEnough IsGone (delete_failed K r.obs fuel b e)
  unfolding delete_failed
  failed-Leads force e not_empty found =
      Leads-if (is_bucket_not_found e) _ _ (λ h. absurd (clash h found))
        (λ _.
          Leads-if (is_bucket_not_empty e && b.spec.force_destroy) _ _
            (λ _.
              Leads-handle _ _ _ (emptied K r.obs b.name objects exists stored L fuel) again-Leads)
            (λ h. absurd (clash (both _ _ not_empty force) h)))

  delete-Leads : b.spec.force_destroy ≡ true → Leads {K = K} IsEnough IsGone (delete K r.obs fuel b)
  unfolding delete call pure
  delete-Leads force = record {
    at = λ w enough. elim (list_cases (objects w.svc)) [
      | inl nothing ↦
          let (e, gone) = L.deletes_empty w.svc nothing in
          let there =
            handle_ok (call K (on_bucket r.obs b.name delete_bucket)) (λ _. pure finished)
              (delete_failed K r.obs fuel b) w e in
          (
            finished,
            ap (λ (x : Result Progress × World K). x.0) there,
            (refl, ap (λ (x : Result Progress × World K). exists x.1.svc) there ∙ gone),
          )
      | inr (o, os, h) ↦
          let (x, e, not_empty, found, same) = L.refuses w.svc o os h in
          let there =
            handle_err (call K (on_bucket r.obs b.name delete_bucket)) (λ _. pure finished)
              (delete_failed K r.obs fuel b) w e in
          let (p, e', gone) =
            (failed-Leads force x not_empty found).at
              (call K (on_bucket r.obs b.name delete_bucket) w).1
              (subst (λ l. length l < fuel) (sym same) enough) in
          (
            p,
            ap (λ (y : Result Progress × World K). y.0) there ∙ e',
            subst (λ (y : Result Progress × World K). IsGone p y.1.svc) (sym there) gone,
          )
    ];
  }

  -- The remote bucket is gone, and the stored Bucket has our finalizer no more.
  abbrev pub IsReleased : K.State → Type 0
  IsReleased s = (exists s ≡ false) × (stored s ≡ without_finalizer K b)

  abbrev Released : Progress → K.State → Type 0
  Released p s = (p ≡ finished) × IsReleased s

  release-Leads : Leads {K = K} (λ s. exists s ≡ false) Released (release K b)
  unfolding release patch_finalizer
  release-Leads =
      Leads-handle _ _ _
        (Leads-call (patch_bucket b (without_finalizer K b)) {J = λ _ s. IsReleased s} λ s gone.
          let (e, same, there) = L.patches b (without_finalizer K b) s in
          (without_finalizer K b, e, (same ∙ gone, there)))
        (λ _. Leads-pure finished (λ s i. (refl, i)))

  after-Leads : (p : Progress) → Leads {K = K} (IsGone p) Released (after_delete K b p)
  unfolding after_delete
  after-Leads finished = Leads-from (λ s (_, gone). gone) release-Leads
  after-Leads unfinished = record { at = λ w (f, _). absurd (not_both f) }

  deleting-Leads :
      b.spec.force_destroy ≡ true
      → (seen : BucketObservation)
      → Leads {K = K}
          (λ s. (seen.exists ≡ true) × IsEnough s)
          Released
          (reconcile_deleting K fuel b r seen)
  unfolding reconcile_deleting
  deleting-Leads force seen =
      Leads-if seen.exists _ _
        (λ _.
          Leads-from (λ s (_, enough). enough)
            (Leads-handle _ _ _ (delete-Leads force) after-Leads))
        (λ missing. record { at = λ w (there, _). absurd (clash there missing) })

  seen-Leads :
      Leads {K = K}
        (λ s. (exists s ≡ true) × IsEnough s)
        (λ seen s. (seen.exists ≡ true) × IsEnough s)
        (observe K r.obs b)
  unfolding observe
  seen-Leads =
      Leads-handle (call K (on_bucket r.obs b.name get_metadata)) _ _
        (Leads-call (on_bucket r.obs b.name get_metadata) {J = λ _ s. IsEnough s}
          λ s (there, enough).
            let (v, e) = L.finds s there in
            (v, e, subst (λ l. length l < fuel) (sym (L.finding_keeps s).0) enough))
        (λ v. Leads-pure (seen_bucket K v) (λ s i. (refl, i)))

  -- One reconcile of a Bucket that is being deleted leads to its end: if the Bucket says
  -- forceDestroy, its remote bucket exists, OBS and the API server grant the deletion, and the fuel
  -- is more than the objects, then the reconcile returns without an error,
  -- the remote bucket is gone, and the Bucket is stored without our finalizer.
  pub reconcile_resolved-IsReleased :
      (w : World K)
      → b.spec.force_destroy ≡ true
      → is_deleting b ≡ true
      → exists w.svc ≡ true
      → length (objects w.svc) < fuel
      → ((reconcile_resolved K fuel b r w).0 ≡ ok finished)
        × IsReleased (reconcile_resolved K fuel b r w).1.svc
  unfolding reconcile_resolved reconcile_observed
  reconcile_resolved-IsReleased w force deleting there enough =
      let (p, e, (f, released)) = whole.at w (there, enough) in (e ∙ ap ok f, released)
    where
      whole :
          Leads {K = K}
            (λ s. (exists s ≡ true) × IsEnough s)
            Released
            (reconcile_resolved K fuel b r)
      whole = Leads-handle _ _ _ seen-Leads λ seen. rw deleting (deleting-Leads force seen)
