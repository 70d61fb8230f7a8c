-- ===== src/BucketController/Liveness/Settling.antt =====
-- `update` comes to its end when OBS grants the requests on settings.
use obs_operator.Base.{
  arith, String, ◌≡◌, ◌∙◌, Option, none, some, ◌==◌, nat_eq, length, true, refl, [], inl, inr,
  string_eq, ==_refl,
}
use obs_operator.Base.Dict.{Dict}
use obs_operator.Api.{Bucket, BucketServerSideEncryptionSpec}
use obs_operator.Services.{
  Services, ObsClient, BucketEncryptionConfiguration, BucketRequest, BucketReply, on_bucket,
  get_tagging, delete_tagging, get_encryption, delete_encryption,
}
use obs_operator.Services.Action.{call, on_error}
use obs_operator.Services.Serving.{
  Serves, serving_rules, Serves-pure, Serves-handle, Serves-if, Serves-tolerated, Leads-call,
}
use obs_operator.BucketController.Settings.{maps_equal}
use obs_operator.BucketController.Update.Service.{Settings}
use obs_operator.BucketController.Update.{
  unless, no_tags_error, no_encryption_error, no_current_encryption_error, put_storage_class,
  reconcile_storage_class, put_acl, reconcile_acl, put_versioning, reconcile_versioning,
  bucket_tags, put_tags, reconcile_tags, put_logging, reconcile_logging, clear_encryption,
  put_encryption, apply_encryption, reconcile_encryption, run_steps, update,
}
use obs_operator.BucketController.Liveness.{
  IsSettingOf, Grants, HasCode, ValueOrError, HasNoEncryptionCode,
}
use obs_operator.BucketController.ErrorKinds.{is_bucket_code}
use obs_operator.Errors.{GoError}
use obs_operator.Base.{Bool}

is_bucket_code-HasCode :
    (code : String) (e : GoError) → HasCode code e → is_bucket_code e code ≡ true
unfolding is_bucket_code
is_bucket_code-HasCode code e (o, is, same) = rw (is, is_bucket_code) (rw same (==_refl code))

-- The steps take the errors of these codes for the absence of a setting.
no_such_tags : (e : GoError) → HasCode "NoSuchTagSet" e → no_tags_error e ≡ true
unfolding no_tags_error
no_such_tags e has = rw (is_bucket_code-HasCode "NoSuchTagSet" e has) refl

no_such_encryption :
    (e : GoError) → HasCode "NoSuchEncryptionConfiguration" e → no_encryption_error e ≡ true
unfolding no_encryption_error
no_such_encryption e has = rw (is_bucket_code-HasCode "NoSuchEncryptionConfiguration" e has) refl

no_such_current_encryption :
    (e : GoError) → HasNoEncryptionCode e → no_current_encryption_error e ≡ true
unfolding no_current_encryption_error
no_such_current_encryption e (inl has) =
    rw (is_bucket_code-HasCode "NoSuchEncryptionConfiguration" e has) refl
no_such_current_encryption e (inr has) =
    let known = is_bucket_code-HasCode "FsNotSupport" e has in ground arith

module _ (K : Services) (c : ObsClient) (b : Bucket) (view : K.State → Settings)
    (exists : K.State → Bool) (L : Grants K c b view exists) where
  -- The bucket is there.
  abbrev pub Exists : K.State → Type 0
  Exists s = exists s ≡ true

  setting-Serves :
      (q : BucketRequest)
      → IsSettingOf K b q
      → Serves {K = K} Exists (call K (on_bucket c b.name q))
  setting-Serves q i =
      Leads-call (on_bucket c b.name q)
        λ s there. let (v, e) = L.answers q s i there in (v, e, L.setting_keeps q s i ∙ there)

  -- A request that OBS may answer by an error of a kind, which the step takes for a value.
  tolerated-Serves :
      (q : BucketRequest) (Kind : GoError → Type 0) (ignored : GoError → Bool) (a : BucketReply q)
      (prefix : String)
      → ((s : K.State)
          → exists s ≡ true
          → let (r, t) = K.perform (on_bucket c b.name q) s in
            ValueOrError Kind r × (exists t ≡ exists s))
      → ((e : GoError) → Kind e → ignored e ≡ true)
      → Serves {K = K} Exists (on_error (unless ignored a prefix) (call K (on_bucket c b.name q)))
  tolerated-Serves q Kind ignored a prefix answered known =
      Serves-tolerated (on_bucket c b.name q) (unless ignored a prefix) λ s there.
        let (r, kept) = answered s there in
        (
          elim r [ inl v ↦ inl v | inr (e, is, has) ↦ inr (e, is, (a, rw (known e has) refl)) ],
          kept ∙ there,
        )

  ruleset setting_rules = (serving_rules, setting-Serves)

  storage_class-Serves : Serves Exists (reconcile_storage_class K c b)
  unfolding reconcile_storage_class put_storage_class
  storage_class-Serves = search setting_rules depth 8

  acl-Serves : Serves Exists (reconcile_acl K c b)
  unfolding reconcile_acl put_acl
  acl-Serves = search setting_rules depth 8

  versioning-Serves : Serves Exists (reconcile_versioning K c b)
  unfolding reconcile_versioning put_versioning
  versioning-Serves = search setting_rules depth 8

  bucket_tags-Serves : Serves Exists (bucket_tags K c b)
  unfolding bucket_tags
  bucket_tags-Serves =
      Serves-handle _ _ _
        (tolerated-Serves get_tagging (HasCode "NoSuchTagSet") no_tags_error [] "read bucket tags: "
          L.reads_tags no_such_tags)
        (λ a. Serves-pure _)

  put_tags-Serves :
      (desired current : Dict String String) → Serves Exists (put_tags K c b desired current)
  unfolding put_tags
  put_tags-Serves desired current =
      Serves-if (maps_equal current desired) _ _ (λ _. Serves-pure tt)
        (λ _.
          Serves-if (length desired == 0) _ _
            (λ _.
              tolerated-Serves delete_tagging (HasCode "NoSuchTagSet") no_tags_error tt
                "delete bucket tags: " L.clears_tags no_such_tags)
            (λ _. search setting_rules depth 8))

  tags-Serves : Serves Exists (reconcile_tags K c b)
  unfolding reconcile_tags
  tags-Serves = search (setting_rules, bucket_tags-Serves, put_tags-Serves) depth 8

  logging-Serves : Serves Exists (reconcile_logging K c b)
  unfolding reconcile_logging put_logging
  logging-Serves = search setting_rules depth 8

  apply_encryption-Serves :
      (s : Option BucketServerSideEncryptionSpec) (current : Option BucketEncryptionConfiguration)
      → Serves Exists (apply_encryption K c b s current)
  unfolding apply_encryption clear_encryption put_encryption
  apply_encryption-Serves none none = Serves-pure tt
  apply_encryption-Serves none (some e) =
      tolerated-Serves delete_encryption (HasCode "NoSuchEncryptionConfiguration")
        no_encryption_error tt "delete bucket encryption: " L.clears_encryption no_such_encryption
  apply_encryption-Serves (some s) current = search setting_rules depth 8

  encryption-Serves : Serves Exists (reconcile_encryption K c b)
  unfolding reconcile_encryption
  encryption-Serves =
      Serves-handle _ _ _
        (tolerated-Serves get_encryption HasNoEncryptionCode no_current_encryption_error none
          "read bucket encryption: " L.reads_encryption no_such_current_encryption)
        (λ current. apply_encryption-Serves _ current)

  pub update-Serves : Serves Exists (update K c b)
  unfolding update run_steps
  update-Serves =
      search
        (
          setting_rules, storage_class-Serves, acl-Serves, versioning-Serves, tags-Serves,
          logging-Serves, encryption-Serves,
        )
        depth 16
