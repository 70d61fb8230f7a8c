-- ===== src/BucketController/Liveness/Kept.antt =====
-- A reconcile of a Bucket that has our finalizer and is not being deleted, and the one before it.
use obs_operator.Base.{
  ℕ, String, ◌≡◌, refl, sym, ap, ◌∙◌, Bool, true, false, Option, none, some, inl, inr, Bool-cases,
  string_eq,
}
use mathlib.Core.Path.{subst}
use obs_operator.Base.Dict.{NodupKeys}
use obs_operator.Errors.{Result, ok}
use obs_operator.Api.{Bucket, BucketStatus}
use obs_operator.Services.{Services, on_bucket, get_metadata, create_bucket}
use obs_operator.Services.Action.{World, pure, call, from_result}
use obs_operator.Services.Run.{handle_err}
use obs_operator.Services.Serving.{
  Leads, Serves, Serves-pure, Serves-handle, Serves-if, Serves-read_world, Leads-pure, Leads-handle,
  Leads-if, Leads-from, Leads-call,
}
use obs_operator.Provider.Cache.{ResolvedClient}
use obs_operator.BucketController.Settings.{desired_tags}
use obs_operator.BucketController.Update.{update}
use obs_operator.BucketController.Update.Service.{Settings, IsInSync}
use obs_operator.BucketController.Update.Convergence.{update-IsInSync}
use obs_operator.BucketController.Lifecycle.{
  BucketObservation, observe, observe_failed, create, create_input, seen_bucket,
}
use obs_operator.BucketController.Destroy.{finished}
use obs_operator.BucketController.Status.{
  has_finalizer, status_changed, status_patch, write_status, update_bucket_status, reported,
  patch_status,
}
use obs_operator.BucketController.Reconcile.{
  is_deleting, report, sync, reconcile_owned, reconcile_observed, reconcile_resolved,
}
use obs_operator.BucketController.Liveness.{Grants, TakesPatches}
use obs_operator.BucketController.Liveness.Settling.{update-Serves}

module _ (K : Services) (r : ResolvedClient) (b : Bucket) (view : K.State → Settings)
    (exists : K.State → Bool) (stored : K.State → Bucket) (L : Grants K r.obs b view exists)
    (P : TakesPatches K view exists stored) where
  -- The remote bucket is there and as the resource asks.
  abbrev pub IsSettled : K.State → Type 0
  IsSettled s = (exists s ≡ true) × IsInSync K b (view s)

  same-IsSettled :
      (s t : K.State) → view t ≡ view s → exists t ≡ exists s → IsSettled s → IsSettled t
  same-IsSettled s t same_view same_exists (there, settled) =
      (same_exists ∙ there, subst (IsInSync K b) (sym same_view) settled)

  update-Leads :
      NodupKeys (desired_tags b)
      → Leads {K = K} (λ s. exists s ≡ true) (λ _. IsSettled) (update K r.obs b)
  update-Leads u = record {
    at = λ w i.
        let (v, e, j) = (update-Serves K r.obs b view exists L).at w i in
        (v, e, (j, update-IsInSync K r.obs b view L.keeps w u e));
  }

  observe-IsSettled-Serves : Serves IsSettled (observe K r.obs b)
  unfolding observe
  observe-IsSettled-Serves =
      Serves-handle (call K (on_bucket r.obs b.name get_metadata)) _ _
        (Leads-call (on_bucket r.obs b.name get_metadata) λ s i.
          let (v, e) = L.finds s i.0 in
          let (same_view, same_exists) = L.metadata_keeps s in
          (v, e, same-IsSettled s _ same_view same_exists i))
        (λ v. Serves-pure (seen_bucket K v))

  status-Serves :
      (next : BucketStatus) (w : World K) → Serves IsSettled (call K (status_patch K b next w))
  status-Serves next w = Leads-call (status_patch K b next w) λ s i.
      let (e, same_view, same_exists) = P.patches_status b _ s in
      (tt, e, same-IsSettled s _ same_view same_exists i)

  write_status-Serves : (next : BucketStatus) → Serves IsSettled (write_status K b next)
  unfolding write_status
  write_status-Serves next = Serves-handle _ _ _ Serves-read_world λ w.
      Serves-if (status_changed b.status next) _ _
        (λ _. Serves-handle _ _ _ (status-Serves next w) (λ _. Serves-pure tt))
        (λ _. Serves-pure tt)

  report-Leads :
      (metadata : Option String)
      → Leads IsSettled (λ p s. (p ≡ finished) × IsSettled s) (report K b (some r) none metadata)
  unfolding report patch_status update_bucket_status reported
  report-Leads metadata =
      Leads-handle _ _ _
        (Serves-handle _ _ _ (Serves-handle _ _ _ Serves-read_world (λ w. write_status-Serves _))
          (λ _. Serves-pure tt))
        (λ _. Leads-pure finished (λ s i. (refl, i)))

  sync-Leads :
      NodupKeys (desired_tags b)
      → (metadata : Option String)
      → Leads {K = K}
          (λ s. exists s ≡ true)
          (λ p s. (p ≡ finished) × IsSettled s)
          (sync K b r metadata)
  unfolding sync
  sync-Leads u metadata =
      Leads-handle _ _ _ (update-Leads u)
        λ _. Leads-handle _ _ _ observe-IsSettled-Serves λ seen. report-Leads seen.metadata

  create-Leads :
      Leads {K = K} (λ s. exists s ≡ false) (λ _ s. exists s ≡ true) (create K r.obs b r.region)
  unfolding create
  create-Leads =
      Leads-handle _ _ _
        (Leads-call (on_bucket r.obs b.name (create_bucket (create_input K b r.region)))
          λ s i. let (e, there) = L.creates (create_input K b r.region) s i in (tt, e, there))
        (λ _. Leads-pure tt (λ s i. i))

  -- What `observe` sees is what there is.
  observe-true :
      Leads {K = K}
        (λ s. exists s ≡ true)
        (λ seen s. (seen.exists ≡ true) × (exists s ≡ true))
        (observe K r.obs b)
  unfolding observe
  observe-true =
      Leads-handle (call K (on_bucket r.obs b.name get_metadata)) _ _
        (Leads-call (on_bucket r.obs b.name get_metadata)
          λ s i. let (v, e) = L.finds s i in (v, e, (L.metadata_keeps s).1 ∙ i))
        (λ v. Leads-pure (seen_bucket K v) (λ s i. (refl, i)))

  pub observe-false :
      Leads {K = K}
        (λ s. exists s ≡ false)
        (λ seen s. (seen.exists ≡ false) × (exists s ≡ false))
        (observe K r.obs b)
  unfolding observe observe_failed call from_result pure
  observe-false = record {
    at = λ w i.
        let (e, failed, missing) = L.misses w.svc i in
        let there =
          handle_err (call K (on_bucket r.obs b.name get_metadata)) (λ v. pure (seen_bucket K v))
            (λ x. from_result (observe_failed K b x)) w failed in
        (
          record { exists = false; metadata = none },
          ap (λ (p : Result BucketObservation × World K). p.0) there ∙ rw missing refl,
          (
            refl,
            ap (λ (p : Result BucketObservation × World K). exists p.1.svc) there
                ∙ rw missing ((L.metadata_keeps w.svc).1 ∙ i),
          ),
        );
  }

  observe-Leads :
      Leads {K = K} (λ _. Unit {0}) (λ seen s. seen.exists ≡ exists s) (observe K r.obs b)
  observe-Leads = record {
    at = λ w i. elim (Bool-cases (exists w.svc)) [
      | inl e ↦ let (seen, h, (p, q)) = observe-true.at w e in (seen, h, p ∙ sym q)
      | inr e ↦ let (seen, h, (p, q)) = observe-false.at w e in (seen, h, p ∙ sym q)
    ];
  }

  owned-Leads :
      NodupKeys (desired_tags b)
      → (seen : BucketObservation)
      → Leads {K = K}
          (λ s. seen.exists ≡ exists s)
          (λ p s. (p ≡ finished) × IsSettled s)
          (reconcile_owned K b r seen)
  unfolding reconcile_owned
  owned-Leads u seen =
      Leads-if seen.exists _ _
        (λ e. Leads-from (λ s same. sym same ∙ e) (sync-Leads u seen.metadata))
        (λ e.
          Leads-handle _ _ _ (Leads-from (λ s same. sym same ∙ e) create-Leads)
            (λ _. sync-Leads u seen.metadata))

  kept-Leads :
      NodupKeys (desired_tags b)
      → is_deleting b ≡ false
      → has_finalizer K b ≡ true
      → (fuel : ℕ)
      → Leads {K = K}
          (λ _. Unit {0})
          (λ p s. (p ≡ finished) × IsSettled s)
          (reconcile_resolved K fuel b r)
  unfolding reconcile_resolved reconcile_observed
  kept-Leads u not_deleting ours fuel =
      Leads-handle _ _ _ observe-Leads λ seen. rw (not_deleting, ours) (owned-Leads u seen)

  -- One reconcile of a Bucket that has our finalizer and is not being deleted leads to the end: if
  -- OBS keeps settings and grants the requests on those of a bucket that is there (where it may
  -- answer by an error of its own code that there are no tags or no encryption), creates a missing
  -- bucket, the API server takes the status, and no key stands twice in the Bucket's tags, then the
  -- reconcile returns without an error, the remote bucket is there, and it is as the resource asks.
  pub reconcile_resolved-IsSettled :
      NodupKeys (desired_tags b)
      → is_deleting b ≡ false
      → has_finalizer K b ≡ true
      → (fuel : ℕ) (w : World K)
      → ((reconcile_resolved K fuel b r w).0 ≡ ok finished)
        × IsSettled (reconcile_resolved K fuel b r w).1.svc
  reconcile_resolved-IsSettled u not_deleting ours fuel w =
      let (p, e, (f, settled)) = (kept-Leads u not_deleting ours fuel).at w tt in
      (e ∙ ap ok f, settled)
