-- ===== src/BucketController/Bounds/Steps.antt =====
-- The requests of `update`: two for each step.
use obs_operator.Base.{String, Option, none, some, ◌==◌, nat_eq, length}
use obs_operator.BucketController.Settings.{maps_equal}
use obs_operator.Base.Dict.{Dict}
use obs_operator.Api.{Bucket, BucketServerSideEncryptionSpec}
use obs_operator.Services.{
  Services, ObsClient, BucketEncryptionConfiguration, BucketRequest, on_bucket, get_tagging,
  delete_tagging, get_encryption, delete_encryption,
}
use obs_operator.Services.Costs.{
  Costs, cost_rules, Costs-pure, Costs-fail, Costs-step, Costs-handle, Costs-answer, Costs-on_error,
  Costs-if, Costs-call,
}
use obs_operator.Services.Action.{call}
use obs_operator.BucketController.Update.{
  put_storage_class, reconcile_storage_class, put_acl, reconcile_acl, put_versioning,
  reconcile_versioning, bucket_tags, put_tags, reconcile_tags, put_logging, reconcile_logging,
  clear_encryption, put_encryption, apply_encryption, reconcile_encryption, run_steps, update,
}

module _ (K : Services) (c : ObsClient) (b : Bucket) where
  ask-Costs : (q : BucketRequest) → Costs 1 (call K (on_bucket c b.name q))
  ask-Costs q = Costs-call (on_bucket c b.name q)

  ruleset ask_rules = (cost_rules, ask-Costs)

  storage_class-Costs : Costs 2 (reconcile_storage_class K c b)
  unfolding reconcile_storage_class put_storage_class
  storage_class-Costs = search ask_rules depth 8

  acl-Costs : Costs 2 (reconcile_acl K c b)
  unfolding reconcile_acl put_acl
  acl-Costs = search ask_rules depth 8

  versioning-Costs : Costs 2 (reconcile_versioning K c b)
  unfolding reconcile_versioning put_versioning
  versioning-Costs = search ask_rules depth 8

  bucket_tags-Costs : Costs 1 (bucket_tags K c b)
  unfolding bucket_tags
  bucket_tags-Costs =
      Costs-answer _ _ _ (Costs-on_error _ _ (ask-Costs get_tagging)) (λ a. Costs-pure _)
        (λ e. Costs-fail e)

  put_tags-Costs : (desired current : Dict String String) → Costs 1 (put_tags K c b desired current)
  unfolding put_tags
  put_tags-Costs desired current = Costs-if (maps_equal current desired) _ _ (Costs-pure tt) (
      Costs-if (length desired == 0) _ _ (Costs-on_error _ _ (ask-Costs delete_tagging))
        (search ask_rules depth 8))

  tags-Costs : Costs 2 (reconcile_tags K c b)
  unfolding reconcile_tags
  tags-Costs = Costs-step _ _ bucket_tags-Costs λ current. put_tags-Costs _ current

  logging-Costs : Costs 2 (reconcile_logging K c b)
  unfolding reconcile_logging put_logging
  logging-Costs = search ask_rules depth 8

  apply_encryption-Costs :
      (s : Option BucketServerSideEncryptionSpec) (current : Option BucketEncryptionConfiguration)
      → Costs 1 (apply_encryption K c b s current)
  unfolding apply_encryption clear_encryption put_encryption
  apply_encryption-Costs none none = Costs-pure tt
  apply_encryption-Costs none (some e) = Costs-on_error _ _ (ask-Costs delete_encryption)
  apply_encryption-Costs (some s) current = search ask_rules depth 8

  encryption-Costs : Costs 2 (reconcile_encryption K c b)
  unfolding reconcile_encryption
  encryption-Costs =
      Costs-step _ _ (Costs-on_error _ _ (ask-Costs get_encryption))
        λ current. apply_encryption-Costs _ current

  pub update-Costs : Costs 12 (update K c b)
  unfolding update run_steps
  update-Costs =
      Costs-handle 2 10 _ _ _ storage_class-Costs
        (λ _.
          Costs-handle 2 8 _ _ _ acl-Costs
            (λ _.
              Costs-handle 2 6 _ _ _ versioning-Costs
                (λ _.
                  Costs-handle 2 4 _ _ _ tags-Costs
                    (λ _.
                      Costs-handle 2 2 _ _ _ logging-Costs
                        (λ _.
                          Costs-handle 2 0 _ _ _ encryption-Costs (λ _. Costs-pure tt)
                            (λ e. Costs-fail e))
                        (λ e. Costs-fail e))
                    (λ e. Costs-fail e))
                (λ e. Costs-fail e))
            (λ e. Costs-fail e))
        (λ e. Costs-fail e)
