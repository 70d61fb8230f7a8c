-- ===== src/BucketController/Update/Steps.antt =====
-- What the steps of `update` for the storage class, the ACL, the versioning and the logging leave.
use obs_operator.Base.{◌≡◌, refl, sym, true, some}
use obs_operator.Base.{string_eq, option_eq, nat_eq, eq-of-==}
use mathlib.Core.Path.{subst}
use obs_operator.Errors.{ok}
use obs_operator.Api.{Bucket}
use obs_operator.Services.{
  Services, ObsClient, get_storage_policy, get_acl, get_versioning, get_logging,
}
use obs_operator.Services.Action.{World, call}
use obs_operator.BucketController.Acl.{flatten_canned_acl}
use obs_operator.BucketController.Settings.{
  normalize_storage_class, bucket_storage_class, bucket_acl, bucket_versioning, logging_input,
  logging_matches,
}
use obs_operator.BucketController.Update.{
  put_storage_class, reconcile_storage_class, put_acl, reconcile_acl, put_versioning,
  reconcile_versioning, put_logging, reconcile_logging,
}
use obs_operator.BucketController.Update.Service.{Settings, KeepsSettings}
use obs_operator.BucketController.Update.Reading.{logging_matches_self, setting_settled}

module _ (K : Services) (c : ObsClient) (b : Bucket) (view : K.State → Settings)
    (L : KeepsSettings K c b.name view) where
  -- From `s` to `t` only the storage class may differ, and that of `t` is the desired one.
  abbrev pub StorageClassSettled : Settings → Settings → Type 0
  StorageClassSettled s t =
      (t ≡ record s { storage_class = t.storage_class })
      × (normalize_storage_class K.constants t.storage_class
          ≡ normalize_storage_class K.constants (bucket_storage_class K.constants b))

  pub storage_class_settled :
      (w : World K)
      → (reconcile_storage_class K c b w).0 ≡ ok tt
      → StorageClassSettled (view w.svc) (view (reconcile_storage_class K c b w).1.svc)
  unfolding reconcile_storage_class put_storage_class call
  storage_class_settled =
      setting_settled K c b view L _ _ get_storage_policy _ _ (λ s. s.storage_class)
        StorageClassSettled tt L.reads_storage_class (λ s t. (refl, eq-of-== _ _ t))
        (λ w wrote. L.sets_storage_class w.svc _ wrote)

  abbrev pub AclSettled : Settings → Settings → Type 0
  AclSettled s t =
      (t ≡ record s { acl = t.acl })
      × (flatten_canned_acl K.constants t.acl ≡ some (bucket_acl K.constants b))

  pub acl_settled :
      (w : World K)
      → (reconcile_acl K c b w).0 ≡ ok tt
      → AclSettled (view w.svc) (view (reconcile_acl K c b w).1.svc)
  unfolding reconcile_acl put_acl call
  acl_settled =
      setting_settled K c b view L _ _ get_acl _ _ (λ s. s.acl) AclSettled tt L.reads_acl
        (λ s t. (refl, eq-of-== _ _ t)) (λ w wrote. L.sets_acl w.svc _ wrote)

  abbrev pub VersioningSettled : Settings → Settings → Type 0
  VersioningSettled s t =
      (t ≡ record s { versioning = t.versioning })
      × (t.versioning ≡ bucket_versioning K.constants b)

  pub versioning_settled :
      (w : World K)
      → (reconcile_versioning K c b w).0 ≡ ok tt
      → VersioningSettled (view w.svc) (view (reconcile_versioning K c b w).1.svc)
  unfolding reconcile_versioning put_versioning call
  versioning_settled =
      setting_settled K c b view L _ _ get_versioning _ _ (λ s. s.versioning) VersioningSettled tt
        L.reads_versioning (λ s t. (refl, eq-of-== _ _ t))
        (λ w wrote.
          subst (VersioningSettled (view w.svc)) (sym (L.sets_versioning w.svc _ wrote))
            (refl, refl))

  abbrev pub LoggingSettled : Settings → Settings → Type 0
  LoggingSettled s t =
      (t ≡ record s { logging = t.logging }) × (logging_matches t.logging (logging_input b) ≡ true)

  pub logging_settled :
      (w : World K)
      → (reconcile_logging K c b w).0 ≡ ok tt
      → LoggingSettled (view w.svc) (view (reconcile_logging K c b w).1.svc)
  unfolding reconcile_logging put_logging call
  logging_settled =
      setting_settled K c b view L _ _ get_logging _ _ (λ s. s.logging) LoggingSettled tt
        L.reads_logging (λ s t. (refl, t))
        (λ w wrote.
          subst (LoggingSettled (view w.svc)) (sym (L.sets_logging w.svc _ wrote))
            (refl, logging_matches_self (logging_input b)))
