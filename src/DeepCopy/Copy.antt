-- ===== src/DeepCopy/Copy.antt =====
-- The functions of api/v1alpha1/zz_generated.deepcopy.go. A `DeepCopyInto` takes what stands at
-- `in` and gives what it leaves at `out`; a `DeepCopy` takes and gives a pointer. The functions of
-- apimachinery that they call are a parameter, an `Apimachinery`.
use obs_operator.Base.{ℕ, String, string_eq, Option, [], ◌∷◌}
use obs_operator.Base.Dict.{Dict, insert}
use obs_operator.Api.{
  Condition, BucketLoggingSpec, BucketServerSideEncryptionSpec, ProviderConfigSpec,
}
use obs_operator.DeepCopy.Memory.{Run, pure, ◌>>=◌, renew, unless_nil, each}
use obs_operator.DeepCopy.Structs.{
  Foreign, BucketSpecStruct, BucketStatusStruct, BucketStruct, BucketListStruct,
  ProviderConfigStatusStruct, ProviderConfigStruct, ProviderConfigListStruct, Object,
}
use obs_operator.DeepCopy.Slots.{
  tags_slot, logging_slot, encryption_slot, conditions_slot, bucket_spec_slot, bucket_status_slot,
  bucket_slot, buckets_slot, bucket_list_slot, provider_config_spec_slot,
  provider_config_status_slot, provider_config_slot, provider_configs_slot,
  provider_config_list_slot,
}

-- `DeepCopyInto` of `metav1.ObjectMeta`, `metav1.ListMeta` and `metav1.Condition`, and
-- `(*metav1.Time).DeepCopy` of a pointer that is not nil.
pub record Apimachinery (L : Foreign) : Type 0 where
  pub meta_deep_copy_into : L.Meta → Run (Object L) L.Meta
  pub list_meta_deep_copy_into : L.ListMeta → Run (Object L) L.ListMeta
  pub condition_deep_copy_into : Condition → Run (Object L) Condition
  pub time_deep_copy : ℕ → Run (Object L) ℕ

-- `for key, val := range *in { (*out)[key] = val }`
unfoldable pub copy_entries : Dict String String → Dict String String → Dict String String
unfolding insert string_eq
copy_entries [] out = out
copy_entries ((k, v) ∷ entries) out = copy_entries entries (insert k v out)

module _ {L : Foreign} (M : Apimachinery L) where
  unfoldable pub bucket_logging_spec_deep_copy_into :
      BucketLoggingSpec → Run (Object L) BucketLoggingSpec
  bucket_logging_spec_deep_copy_into = pure

  unfoldable pub bucket_logging_spec_deep_copy : Option ℕ → Run (Object L) (Option ℕ)
  bucket_logging_spec_deep_copy = unless_nil (renew logging_slot bucket_logging_spec_deep_copy_into)

  unfoldable pub bucket_encryption_spec_deep_copy_into :
      BucketServerSideEncryptionSpec → Run (Object L) BucketServerSideEncryptionSpec
  bucket_encryption_spec_deep_copy_into = pure

  unfoldable pub bucket_encryption_spec_deep_copy : Option ℕ → Run (Object L) (Option ℕ)
  bucket_encryption_spec_deep_copy =
      unless_nil (renew encryption_slot bucket_encryption_spec_deep_copy_into)

  unfoldable pub bucket_spec_deep_copy_into : BucketSpecStruct → Run (Object L) BucketSpecStruct
  bucket_spec_deep_copy_into m = do
    tags ← unless_nil (renew tags_slot (λ entries. pure (copy_entries entries []))) m.tags
    logging ← unless_nil (renew logging_slot pure) m.logging
    encryption ← unless_nil (renew encryption_slot pure) m.server_side_encryption
    pure (record m { tags = tags; logging = logging; server_side_encryption = encryption })

  unfoldable pub bucket_spec_deep_copy : Option ℕ → Run (Object L) (Option ℕ)
  bucket_spec_deep_copy = unless_nil (renew bucket_spec_slot bucket_spec_deep_copy_into)

  unfoldable pub bucket_status_deep_copy_into :
      BucketStatusStruct → Run (Object L) BucketStatusStruct
  bucket_status_deep_copy_into m = do
    time ← unless_nil M.time_deep_copy m.last_sync_time
    conditions ← unless_nil (renew conditions_slot (each M.condition_deep_copy_into)) m.conditions
    pure (record m { last_sync_time = time; conditions = conditions })

  unfoldable pub bucket_status_deep_copy : Option ℕ → Run (Object L) (Option ℕ)
  bucket_status_deep_copy = unless_nil (renew bucket_status_slot bucket_status_deep_copy_into)

  unfoldable pub bucket_deep_copy_into : BucketStruct L → Run (Object L) (BucketStruct L)
  bucket_deep_copy_into m = do
    metadata ← M.meta_deep_copy_into m.metadata
    spec ← bucket_spec_deep_copy_into m.spec
    status ← bucket_status_deep_copy_into m.status
    pure (record m { metadata = metadata; spec = spec; status = status })

  unfoldable pub bucket_deep_copy : Option ℕ → Run (Object L) (Option ℕ)
  bucket_deep_copy = unless_nil (renew bucket_slot bucket_deep_copy_into)

  unfoldable pub bucket_list_deep_copy_into :
      BucketListStruct L → Run (Object L) (BucketListStruct L)
  bucket_list_deep_copy_into m = do
    list_meta ← M.list_meta_deep_copy_into m.list_meta
    items ← unless_nil (renew buckets_slot (each bucket_deep_copy_into)) m.items
    pure (record m { list_meta = list_meta; items = items })

  unfoldable pub bucket_list_deep_copy : Option ℕ → Run (Object L) (Option ℕ)
  bucket_list_deep_copy = unless_nil (renew bucket_list_slot bucket_list_deep_copy_into)

  unfoldable pub provider_config_spec_deep_copy_into :
      ProviderConfigSpec → Run (Object L) ProviderConfigSpec
  provider_config_spec_deep_copy_into m =
      pure (record m { credentials_secret_ref = m.credentials_secret_ref })

  unfoldable pub provider_config_spec_deep_copy : Option ℕ → Run (Object L) (Option ℕ)
  provider_config_spec_deep_copy =
      unless_nil (renew provider_config_spec_slot provider_config_spec_deep_copy_into)

  unfoldable pub provider_config_status_deep_copy_into :
      ProviderConfigStatusStruct → Run (Object L) ProviderConfigStatusStruct
  provider_config_status_deep_copy_into m = do
    time ← unless_nil M.time_deep_copy m.last_validation_time
    conditions ← unless_nil (renew conditions_slot (each M.condition_deep_copy_into)) m.conditions
    pure (record m { last_validation_time = time; conditions = conditions })

  unfoldable pub provider_config_status_deep_copy : Option ℕ → Run (Object L) (Option ℕ)
  provider_config_status_deep_copy =
      unless_nil (renew provider_config_status_slot provider_config_status_deep_copy_into)

  unfoldable pub provider_config_deep_copy_into :
      ProviderConfigStruct L → Run (Object L) (ProviderConfigStruct L)
  provider_config_deep_copy_into m = do
    metadata ← M.meta_deep_copy_into m.metadata
    status ← provider_config_status_deep_copy_into m.status
    pure (record m { metadata = metadata; status = status })

  unfoldable pub provider_config_deep_copy : Option ℕ → Run (Object L) (Option ℕ)
  provider_config_deep_copy = unless_nil (renew provider_config_slot provider_config_deep_copy_into)

  unfoldable pub provider_config_list_deep_copy_into :
      ProviderConfigListStruct L → Run (Object L) (ProviderConfigListStruct L)
  provider_config_list_deep_copy_into m = do
    list_meta ← M.list_meta_deep_copy_into m.list_meta
    items ← unless_nil (renew provider_configs_slot (each provider_config_deep_copy_into)) m.items
    pure (record m { list_meta = list_meta; items = items })

  unfoldable pub provider_config_list_deep_copy : Option ℕ → Run (Object L) (Option ℕ)
  provider_config_list_deep_copy =
      unless_nil (renew provider_config_list_slot provider_config_list_deep_copy_into)
