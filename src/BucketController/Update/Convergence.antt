-- ===== src/BucketController/Update/Convergence.antt =====
-- `update` against a service that keeps what it is given.
use obs_operator.Base.{◌≡◌, sym, refl, ap, ◌∙◌, true, List, [], ◌∷◌}
use obs_operator.Base.{string_eq, option_eq, nat_eq, ◌⊎◌, inl, inr}
use mathlib.Core.Path.{subst}
use obs_operator.Errors.{Result, ok}
use obs_operator.Api.{Bucket}
use obs_operator.Services.{Services, ObsClient, Tag}
use obs_operator.Services.Action.{World, Action, pure}
use obs_operator.Services.Run.{bind-eq-ok}
use obs_operator.BucketController.Acl.{flatten_canned_acl}
use obs_operator.BucketController.Settings.{
  normalize_storage_class, desired_tags, tag_map, maps_equal, tags_from_map, logging_input,
  logging_matches,
}
use obs_operator.BucketController.Update.{
  reconcile_storage_class, reconcile_acl, reconcile_versioning, reconcile_tags, reconcile_logging,
  reconcile_encryption, run_steps, update,
}
use obs_operator.Base.Dict.{NodupKeys}
use obs_operator.BucketController.Settings.Tags.{maps_equal-tags_from_map}
use obs_operator.BucketController.Update.Service.{IsInSync, Settings, KeepsSettings}
use obs_operator.BucketController.Update.Steps.{
  storage_class_settled, acl_settled, versioning_settled, logging_settled, StorageClassSettled,
  AclSettled, VersioningSettled, LoggingSettled,
}
use obs_operator.BucketController.Update.TagsAndEncryption.{
  tags_settled, encryption_settled, TagsSettled, EncryptionSettled,
}

-- A loop over steps that returns has run its first step to its end, and then the others.
run_steps-eq-ok :
    (K : Services) (c : ObsClient) (step : Bucket → Action K (Unit {0}))
    (steps : List (Bucket → Action K (Unit {0}))) (b : Bucket) (w : World K)
    → (run_steps K c (step ∷ steps) b w).0 ≡ ok tt
    → ((step b w).0 ≡ ok tt)
      × ((run_steps K c steps b (step b w).1).0 ≡ ok tt)
      × ((run_steps K c (step ∷ steps) b w).1 ≡ (run_steps K c steps b (step b w).1).1)
unfolding run_steps
run_steps-eq-ok K c step steps b w h =
    let (v, e1, e2) = bind-eq-ok (step b) (λ (u : Unit {0}). run_steps K c steps b) w h in
    (
      e1,
      sym (ap (λ (r : Result (Unit {0}) × World K). r.0) e2) ∙ h,
      ap (λ (r : Result (Unit {0}) × World K). r.1) e2,
    )

world-run_no_steps :
    (K : Services) (c : ObsClient) (b : Bucket) (w : World K) → (run_steps K c [] b w).1 ≡ w
unfolding run_steps pure
world-run_no_steps K c b w = refl

module _ (K : Services) (c : ObsClient) (b : Bucket) (view : K.State → Settings)
    (L : KeepsSettings K c b.name view) where
  tags_wanted :
      (l : List Tag)
      → (maps_equal (tag_map [] l) (desired_tags b) ≡ true) ⊎ (l ≡ tags_from_map (desired_tags b))
      → NodupKeys (desired_tags b)
      → maps_equal (tag_map [] l) (desired_tags b) ≡ true
  tags_wanted l (inl e) u = e
  tags_wanted l (inr e) u =
      ap (λ x. maps_equal (tag_map [] x) (desired_tags b)) e
      ∙ maps_equal-tags_from_map (desired_tags b) u

  -- Each step keeps what those before it have settled.
  steps-IsInSync :
      (s0 s1 s2 s3 s4 s5 s6 : Settings)
      → StorageClassSettled K c b view L s0 s1
      → AclSettled K c b view L s1 s2
      → VersioningSettled K c b view L s2 s3
      → TagsSettled K c b view L s3 s4
      → LoggingSettled K c b view L s4 s5
      → EncryptionSettled K c b view L b.spec.server_side_encryption s5 s6
      → NodupKeys (desired_tags b)
      → IsInSync K b s6
  steps-IsInSync s0 s1 s2 s3 s4 s5 s6 (e1, p1) (e2, p2) (e3, p3) (e4, p4) (e5, p5) (e6, p6) u =
      let class : s6.storage_class ≡ s1.storage_class =
        ap (λ s. s.storage_class) e6
        ∙ ap (λ s. s.storage_class) e5
        ∙ ap (λ s. s.storage_class) e4
        ∙ ap (λ s. s.storage_class) e3
        ∙ ap (λ s. s.storage_class) e2 in
      let acl : s6.acl ≡ s2.acl =
        ap (λ s. s.acl) e6 ∙ ap (λ s. s.acl) e5 ∙ ap (λ s. s.acl) e4 ∙ ap (λ s. s.acl) e3 in
      let versioning : s6.versioning ≡ s3.versioning =
        ap (λ s. s.versioning) e6 ∙ ap (λ s. s.versioning) e5 ∙ ap (λ s. s.versioning) e4 in
      let tags : s6.tags ≡ s4.tags = ap (λ s. s.tags) e6 ∙ ap (λ s. s.tags) e5 in
      let logging : s6.logging ≡ s5.logging = ap (λ s. s.logging) e6 in
      (
        ap (normalize_storage_class K.constants) class ∙ p1,
        ap (flatten_canned_acl K.constants) acl ∙ p2,
        versioning ∙ p3,
        ap (λ l. maps_equal (tag_map [] l) (desired_tags b)) tags ∙ tags_wanted s4.tags p4 u,
        ap (λ l. logging_matches l (logging_input b)) logging ∙ p5,
        p6,
      )

  -- After an `update` that succeeds the remote bucket is as the resource asks, by the controller's
  -- own comparisons, provided that the service keeps settings as `KeepsSettings` says and that no
  -- key stands twice in the resource's tags, as in every Go map.
  pub update-IsInSync :
      (w : World K)
      → NodupKeys (desired_tags b)
      → (update K c b w).0 ≡ ok tt
      → IsInSync K b (view (update K c b w).1.svc)
  unfolding update
  update-IsInSync w0 u h0 =
      let (g1, h1, t1) = run_steps-eq-ok K c (reconcile_storage_class K c) _ b w0 h0 in
      let w1 = (reconcile_storage_class K c b w0).1 in
      let (g2, h2, t2) = run_steps-eq-ok K c (reconcile_acl K c) _ b w1 h1 in
      let w2 = (reconcile_acl K c b w1).1 in
      let (g3, h3, t3) = run_steps-eq-ok K c (reconcile_versioning K c) _ b w2 h2 in
      let w3 = (reconcile_versioning K c b w2).1 in
      let (g4, h4, t4) = run_steps-eq-ok K c (reconcile_tags K c) _ b w3 h3 in
      let w4 = (reconcile_tags K c b w3).1 in
      let (g5, h5, t5) = run_steps-eq-ok K c (reconcile_logging K c) _ b w4 h4 in
      let w5 = (reconcile_logging K c b w4).1 in
      let (g6, h6, t6) = run_steps-eq-ok K c (reconcile_encryption K c) _ b w5 h5 in
      subst (λ (x : World K). IsInSync K b (view x.svc))
        (sym (
          t1 ∙ t2 ∙ t3 ∙ t4 ∙ t5 ∙ t6 ∙ world-run_no_steps K c b (reconcile_encryption K c b w5).1))
        (steps-IsInSync (view w0.svc) (view w1.svc) (view w2.svc) (view w3.svc) (view w4.svc)
          (view w5.svc) _ (storage_class_settled K c b view L w0 g1)
          (acl_settled K c b view L w1 g2) (versioning_settled K c b view L w2 g3)
          (tags_settled K c b view L w3 g4) (logging_settled K c b view L w4 g5)
          (encryption_settled K c b view L w5 g6) u)
