-- ===== src/BucketController/Caching/Settings.antt =====
-- The six steps of `update` leave the cache alone.
use obs_operator.Base.{String, Option, none, some}
use obs_operator.Base.Dict.{Dict}
use obs_operator.Base.{◌==◌, nat_eq, length}
use obs_operator.BucketController.Settings.{maps_equal}
use obs_operator.Api.{Bucket, BucketServerSideEncryptionSpec}
use obs_operator.Services.{
  Services, ObsClient, BucketEncryptionConfiguration, BucketRequest, on_bucket, get_tagging,
  delete_tagging, get_encryption, delete_encryption,
}
use obs_operator.Services.Action.{call}
use obs_operator.Provider.Cache.{Cache}
use obs_operator.Provider.Resolver.Coherence.{
  KeepsCache, KeepsCache-pure, KeepsCache-fail, KeepsCache-call, KeepsCache-handle, KeepsCache-if,
  KeepsCache-on_error, cache_rules,
}
use obs_operator.BucketController.Update.{
  put_storage_class, reconcile_storage_class, put_acl, reconcile_acl, put_versioning,
  reconcile_versioning, bucket_tags, put_tags, reconcile_tags, put_logging, reconcile_logging,
  clear_encryption, put_encryption, apply_encryption, reconcile_encryption, run_steps, update,
}

module _ (Q : Cache → Type 0) (K : Services) (c : ObsClient) (b : Bucket) where
  ask-KeepsCache : (q : BucketRequest) → KeepsCache Q (call K (on_bucket c b.name q))
  ask-KeepsCache q = KeepsCache-call (on_bucket c b.name q)

  ruleset settings_rules = (cache_rules, ask-KeepsCache)

  storage_class-KeepsCache : KeepsCache Q (reconcile_storage_class K c b)
  unfolding reconcile_storage_class put_storage_class
  storage_class-KeepsCache = search settings_rules depth 8

  acl-KeepsCache : KeepsCache Q (reconcile_acl K c b)
  unfolding reconcile_acl put_acl
  acl-KeepsCache = search settings_rules depth 8

  versioning-KeepsCache : KeepsCache Q (reconcile_versioning K c b)
  unfolding reconcile_versioning put_versioning
  versioning-KeepsCache = search settings_rules depth 8

  bucket_tags-KeepsCache : KeepsCache Q (bucket_tags K c b)
  unfolding bucket_tags
  bucket_tags-KeepsCache =
      KeepsCache-handle _ _ _ (KeepsCache-on_error _ _ (ask-KeepsCache get_tagging))
        (λ a. KeepsCache-pure _) KeepsCache-fail

  put_tags-KeepsCache :
      (desired current : Dict String String) → KeepsCache Q (put_tags K c b desired current)
  unfolding put_tags
  put_tags-KeepsCache desired current =
      KeepsCache-if (maps_equal current desired) _ _ (KeepsCache-pure tt) (
        KeepsCache-if (length desired == 0) _ _
          (KeepsCache-on_error _ _ (ask-KeepsCache delete_tagging)) (search settings_rules depth 8))

  tags-KeepsCache : KeepsCache Q (reconcile_tags K c b)
  unfolding reconcile_tags
  tags-KeepsCache = search (settings_rules, bucket_tags-KeepsCache, put_tags-KeepsCache) depth 8

  logging-KeepsCache : KeepsCache Q (reconcile_logging K c b)
  unfolding reconcile_logging put_logging
  logging-KeepsCache = search settings_rules depth 8

  apply_encryption-KeepsCache :
      (s : Option BucketServerSideEncryptionSpec) (current : Option BucketEncryptionConfiguration)
      → KeepsCache Q (apply_encryption K c b s current)
  unfolding apply_encryption clear_encryption put_encryption
  apply_encryption-KeepsCache none none = search settings_rules depth 8
  apply_encryption-KeepsCache none (some e) =
      KeepsCache-on_error _ _ (ask-KeepsCache delete_encryption)
  apply_encryption-KeepsCache (some s) current = search settings_rules depth 8

  encryption-KeepsCache : KeepsCache Q (reconcile_encryption K c b)
  unfolding reconcile_encryption
  encryption-KeepsCache =
      KeepsCache-handle _ _ _ (KeepsCache-on_error _ _ (ask-KeepsCache get_encryption))
        (λ current. apply_encryption-KeepsCache _ current) KeepsCache-fail

  pub update-KeepsCache : KeepsCache Q (update K c b)
  unfolding update run_steps
  update-KeepsCache =
      search
        (
          settings_rules, storage_class-KeepsCache, acl-KeepsCache, versioning-KeepsCache,
          tags-KeepsCache, logging-KeepsCache, encryption-KeepsCache,
        )
        depth 16
