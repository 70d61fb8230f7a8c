-- ===== src/BucketController/Liveness/Claimed.antt =====
-- The two reconciles that lead from a Bucket without our finalizer to a remote bucket in sync.
use obs_operator.Base.{ℕ, List, String, ◌≡◌, refl, sym, Bool, true, false, string_eq}
use mathlib.Core.Path.{subst}
use obs_operator.Base.Dict.{NodupKeys}
use obs_operator.Errors.{ok}
use obs_operator.Api.{Bucket}
use obs_operator.Services.{Services, patch_bucket}
use obs_operator.Services.Action.{World}
use obs_operator.Services.Serving.{Leads, Leads-pure, Leads-handle, Leads-if, Leads-call}
use obs_operator.Provider.Cache.{ResolvedClient}
use obs_operator.BucketController.Settings.{
  desired_tags, bucket_storage_class, bucket_acl, bucket_versioning, logging_input,
}
use obs_operator.BucketController.Update.Service.{Settings}
use obs_operator.BucketController.Lifecycle.{BucketObservation}
use obs_operator.BucketController.Destroy.{Progress, finished}
use obs_operator.BucketController.Status.{
  has_finalizer, with_finalizer, bucket_finalizer, patch_finalizer,
}
use obs_operator.BucketController.Reconcile.{
  is_deleting, reconcile_unclaimed, reconcile_observed, reconcile_resolved,
}
use obs_operator.BucketController.Liveness.{Grants, TakesPatches}
use obs_operator.BucketController.Liveness.Kept.{
  IsSettled, observe-false, reconcile_resolved-IsSettled,
}

module _ (K : Services) (r : ResolvedClient) (b : Bucket) (view : K.State → Settings)
    (exists : K.State → Bool) (stored : K.State → Bucket) (L : Grants K r.obs b view exists)
    (P : TakesPatches K view exists stored) where
  -- The laws of the Bucket are those of the Bucket with our finalizer.
  claimed-Grants : Grants K r.obs (with_finalizer K b) view exists
  unfolding with_finalizer bucket_storage_class bucket_acl
  claimed-Grants = record {
    keeps = L.keeps;
    answers = L.answers;
    setting_keeps = L.setting_keeps;
    reads_tags = L.reads_tags;
    clears_tags = L.clears_tags;
    reads_encryption = L.reads_encryption;
    clears_encryption = L.clears_encryption;
    finds = L.finds;
    misses = L.misses;
    metadata_keeps = L.metadata_keeps;
    creates = L.creates;
  }

  abbrev IsClaimed : Progress → K.State → Type 0
  IsClaimed p s = (p ≡ finished) × (stored s ≡ with_finalizer K b)

  unclaimed-Leads :
      (seen : BucketObservation)
      → Leads {K = K}
          (λ s. (seen.exists ≡ false) × (exists s ≡ false))
          IsClaimed
          (reconcile_unclaimed K b r seen)
  unfolding reconcile_unclaimed patch_finalizer
  unclaimed-Leads seen =
      Leads-if seen.exists _ _ (λ e. record { at = λ w (missing, _). absurd (clash e missing) })
        (λ _.
          Leads-handle _ _ _
            (Leads-call (patch_bucket b (with_finalizer K b)) λ s i.
              let (e, _, _, there) = P.patches b (with_finalizer K b) s in
              (with_finalizer K b, e, there))
            (λ _. Leads-pure finished (λ s i. (refl, i))))
    where
      clash : {x : Bool} → x ≡ true → x ≡ false → ⊥
      clash h k = cc

  claimed :
      is_deleting b ≡ false
      → has_finalizer K b ≡ false
      → (fuel : ℕ) → Leads {K = K} (λ s. exists s ≡ false) IsClaimed (reconcile_resolved K fuel b r)
  unfolding reconcile_resolved reconcile_observed
  claimed not_deleting not_ours fuel =
      Leads-handle _ _ _ (observe-false K r b view exists stored L P)
        λ seen. rw (not_deleting, not_ours) (unclaimed-Leads seen)

  -- From a Bucket without our finalizer that is not being deleted, and whose remote bucket does not
  -- exist, two reconciles lead to the end: the first stores the finalizer, and the second, of the
  -- stored Bucket, returns without an error and leaves a remote bucket that is there and as the
  -- resource asks. OBS and the API server are as above, and adding a finalizer adds it.
  pub reconcile_twice-IsSettled :
      ((fs : List String)
        → K.contains_finalizer (K.add_finalizer fs bucket_finalizer) bucket_finalizer ≡ true)
      → NodupKeys (desired_tags b)
      → is_deleting b ≡ false
      → has_finalizer K b ≡ false
      → (fuel : ℕ) (w : World K) → exists w.svc ≡ false
      → let w' = (reconcile_resolved K fuel b r w).1 in
        ((reconcile_resolved K fuel (stored w'.svc) r w').0 ≡ ok finished)
        × IsSettled K r b view exists stored L P
            (reconcile_resolved K fuel (stored w'.svc) r w').1.svc
  unfolding with_finalizer desired_tags bucket_storage_class bucket_acl bucket_versioning
      logging_input
  reconcile_twice-IsSettled adds u not_deleting not_ours fuel w missing =
      let w' : World K = (reconcile_resolved K fuel b r w).1 in
      let (p, e, (f, there)) = (claimed not_deleting not_ours fuel).at w missing in
      subst
        (λ b'.
          ((reconcile_resolved K fuel b' r w').0 ≡ ok finished)
          × IsSettled K r b view exists stored L P (reconcile_resolved K fuel b' r w').1.svc)
        (sym there)
        (reconcile_resolved-IsSettled K r (with_finalizer K b) view exists stored claimed-Grants P u
          not_deleting (adds b.finalizers) fuel w')
