-- ===== src/BucketController/Safety/Steps.antt =====
-- The requests of the six steps of `update`.
use obs_operator.Base.{String, Option, none, some}
use obs_operator.Base.Dict.{Dict}
use obs_operator.BucketController.Settings.{maps_equal}
use obs_operator.Base.{◌==◌, nat_eq, length}
use obs_operator.Api.{Bucket, BucketServerSideEncryptionSpec}
use obs_operator.Services.{
  Services, ObsClient, BucketEncryptionConfiguration, get_tagging, delete_tagging, get_encryption,
  delete_encryption,
}
use obs_operator.Services.Trace.{
  Requests, Requests-handle, Requests-on_error, Requests-if, Requests-pure, Requests-fail,
}
use obs_operator.BucketController.Update.{
  put_storage_class, reconcile_storage_class, put_acl, reconcile_acl, put_versioning,
  reconcile_versioning, bucket_tags, put_tags, reconcile_tags, put_logging, reconcile_logging,
  clear_encryption, put_encryption, apply_encryption, reconcile_encryption, run_steps, update,
}
use obs_operator.BucketController.Safety.{IsKept, Permitted, permitted_rules, ask-Permitted}

module _ (K : Services) (c : ObsClient) (b : Bucket) (kept : IsKept K b) where
  storage_class-Permitted : Requests (Permitted K b) (reconcile_storage_class K c b)
  unfolding reconcile_storage_class put_storage_class
  storage_class-Permitted = search permitted_rules depth 8

  acl-Permitted : Requests (Permitted K b) (reconcile_acl K c b)
  unfolding reconcile_acl put_acl
  acl-Permitted = search permitted_rules depth 8

  versioning-Permitted : Requests (Permitted K b) (reconcile_versioning K c b)
  unfolding reconcile_versioning put_versioning
  versioning-Permitted = search permitted_rules depth 8

  bucket_tags-Permitted : Requests (Permitted K b) (bucket_tags K c b)
  unfolding bucket_tags
  bucket_tags-Permitted =
      Requests-handle _ _ _ (Requests-on_error _ _ (ask-Permitted K c b get_tagging kept))
        (λ a. Requests-pure _) (λ e. Requests-fail e)

  put_tags-Permitted :
      (desired current : Dict String String)
      → Requests (Permitted K b) (put_tags K c b desired current)
  unfolding put_tags
  put_tags-Permitted desired current =
      Requests-if (maps_equal current desired) _ _ (λ _. Requests-pure tt)
        (λ _.
          Requests-if (length desired == 0) _ _
            (λ _. Requests-on_error _ _ (ask-Permitted K c b delete_tagging kept))
            (λ _. search permitted_rules depth 8))

  tags-Permitted : Requests (Permitted K b) (reconcile_tags K c b)
  unfolding reconcile_tags
  tags-Permitted = search (permitted_rules, bucket_tags-Permitted, put_tags-Permitted) depth 8

  logging-Permitted : Requests (Permitted K b) (reconcile_logging K c b)
  unfolding reconcile_logging put_logging
  logging-Permitted = search permitted_rules depth 8

  apply_encryption-Permitted :
      (s : Option BucketServerSideEncryptionSpec) (current : Option BucketEncryptionConfiguration)
      → Requests (Permitted K b) (apply_encryption K c b s current)
  unfolding apply_encryption clear_encryption put_encryption
  apply_encryption-Permitted none none = search permitted_rules depth 8
  apply_encryption-Permitted none (some e) =
      Requests-on_error _ _ (ask-Permitted K c b delete_encryption kept)
  apply_encryption-Permitted (some s) current = search permitted_rules depth 8

  encryption-Permitted : Requests (Permitted K b) (reconcile_encryption K c b)
  unfolding reconcile_encryption
  encryption-Permitted =
      Requests-handle _ _ _ (Requests-on_error _ _ (ask-Permitted K c b get_encryption kept))
        (λ current. apply_encryption-Permitted _ current) (λ e. Requests-fail e)

  pub update-Permitted : Requests (Permitted K b) (update K c b)
  unfolding update run_steps
  update-Permitted =
      search
        (
          permitted_rules, storage_class-Permitted, acl-Permitted, versioning-Permitted,
          tags-Permitted, logging-Permitted, encryption-Permitted,
        )
        depth 16
