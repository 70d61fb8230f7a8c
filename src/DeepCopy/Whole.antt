-- ===== src/DeepCopy/Whole.antt =====
-- `DeepCopy` and `DeepCopyObject` copy deeply, for every type.
use obs_operator.Base.{ℕ, Option}
use obs_operator.DeepCopy.Memory.{Heap}
use obs_operator.DeepCopy.Compose.{IsMonotone, IsDeep, Done}
use obs_operator.DeepCopy.Parts.{Nullable, Behind, Plain-IsMonotone, Plain-IsDeep}
use obs_operator.DeepCopy.Structs.{Foreign, Object}
use obs_operator.DeepCopy.Slots.{
  logging_slot-IsSlot, encryption_slot-IsSlot, bucket_spec_slot-IsSlot, bucket_status_slot-IsSlot,
  bucket_slot-IsSlot, bucket_list_slot-IsSlot, provider_config_spec_slot-IsSlot,
  provider_config_status_slot-IsSlot, provider_config_slot-IsSlot, provider_config_list_slot-IsSlot,
}
use obs_operator.DeepCopy.Copy.{
  Apimachinery, bucket_logging_spec_deep_copy_into, bucket_encryption_spec_deep_copy_into,
  provider_config_spec_deep_copy_into,
}
use obs_operator.DeepCopy.Readings.{ForeignReadings, IsApimachinery}
use obs_operator.DeepCopy.Monotone.{
  BucketSpecReads-IsMonotone, BucketStatusReads-IsMonotone, ProviderConfigStatusReads-IsMonotone,
  BucketReads-IsMonotone, ProviderConfigReads-IsMonotone, BucketListReads-IsMonotone,
  ProviderConfigListReads-IsMonotone,
}
use obs_operator.DeepCopy.Deep.{
  pointer-IsDeep, bucket_spec_deep_copy_into-IsDeep, bucket_status_deep_copy_into-IsDeep,
  provider_config_status_deep_copy_into-IsDeep, bucket_deep_copy_into-IsDeep,
  provider_config_deep_copy_into-IsDeep, bucket_list_deep_copy_into-IsDeep,
  provider_config_list_deep_copy_into-IsDeep,
}
use obs_operator.DeepCopy.Objects.{
  StructType, bucket_type, bucket_list_type, provider_config_type, provider_config_list_type,
  bucket_spec_type, bucket_status_type, logging_type, encryption_type, provider_config_spec_type,
  provider_config_status_type, struct_slot, StructValue, StructReads, deep_copy,
}

-- What a pointer to a struct reads as, nil as `none`.
abbrev pub PointerReads :
    {L : Foreign} (F : ForeignReadings L) (t : StructType)
    → ℕ
    → Heap (Object L)
    → Option ℕ
    → Option (StructValue F t)
    → Type 0
PointerReads F t = Nullable (Behind (struct_slot t) (StructReads F t))

module _ {L : Foreign} {F : ForeignReadings L} {M : Apimachinery L} (law : IsApimachinery F M) where
  pub StructReads-IsMonotone : (t : StructType) → IsMonotone (StructReads F t)
  StructReads-IsMonotone bucket_type = BucketReads-IsMonotone law
  StructReads-IsMonotone bucket_list_type = BucketListReads-IsMonotone law
  StructReads-IsMonotone provider_config_type = ProviderConfigReads-IsMonotone law
  StructReads-IsMonotone provider_config_list_type = ProviderConfigListReads-IsMonotone law
  StructReads-IsMonotone bucket_spec_type = BucketSpecReads-IsMonotone
  StructReads-IsMonotone bucket_status_type = BucketStatusReads-IsMonotone
  StructReads-IsMonotone logging_type = Plain-IsMonotone
  StructReads-IsMonotone encryption_type = Plain-IsMonotone
  StructReads-IsMonotone provider_config_spec_type = Plain-IsMonotone
  StructReads-IsMonotone provider_config_status_type = ProviderConfigStatusReads-IsMonotone

  pub deep_copy-IsDeep : (t : StructType) → IsDeep (PointerReads F t) (deep_copy M t)
  unfolding deep_copy bucket_logging_spec_deep_copy_into bucket_encryption_spec_deep_copy_into
      provider_config_spec_deep_copy_into
  deep_copy-IsDeep bucket_type =
      pointer-IsDeep bucket_slot-IsSlot (BucketReads-IsMonotone law)
        (bucket_deep_copy_into-IsDeep law)
  deep_copy-IsDeep bucket_list_type =
      pointer-IsDeep bucket_list_slot-IsSlot (BucketListReads-IsMonotone law)
        (bucket_list_deep_copy_into-IsDeep law)
  deep_copy-IsDeep provider_config_type =
      pointer-IsDeep provider_config_slot-IsSlot (ProviderConfigReads-IsMonotone law)
        (provider_config_deep_copy_into-IsDeep law)
  deep_copy-IsDeep provider_config_list_type =
      pointer-IsDeep provider_config_list_slot-IsSlot (ProviderConfigListReads-IsMonotone law)
        (provider_config_list_deep_copy_into-IsDeep law)
  deep_copy-IsDeep bucket_spec_type =
      pointer-IsDeep bucket_spec_slot-IsSlot BucketSpecReads-IsMonotone
        (bucket_spec_deep_copy_into-IsDeep law)
  deep_copy-IsDeep bucket_status_type =
      pointer-IsDeep bucket_status_slot-IsSlot BucketStatusReads-IsMonotone
        (bucket_status_deep_copy_into-IsDeep law)
  deep_copy-IsDeep logging_type = pointer-IsDeep logging_slot-IsSlot Plain-IsMonotone Plain-IsDeep
  deep_copy-IsDeep encryption_type =
      pointer-IsDeep encryption_slot-IsSlot Plain-IsMonotone Plain-IsDeep
  deep_copy-IsDeep provider_config_spec_type =
      pointer-IsDeep provider_config_spec_slot-IsSlot Plain-IsMonotone Plain-IsDeep
  deep_copy-IsDeep provider_config_status_type =
      pointer-IsDeep provider_config_status_slot-IsSlot ProviderConfigStatusReads-IsMonotone
        (provider_config_status_deep_copy_into-IsDeep law)

-- `DeepCopy` of every type of the API returns without a fault. The copy reads as the original does,
-- by cells that were not there before, nil stays nil, and no cell that was there is changed.
pub deep_copy-PointerReads :
    {L : Foreign} {F : ForeignReadings L} {M : Apimachinery L}
    → IsApimachinery F M
    → (t : StructType) (h : Heap (Object L)) (p : Option ℕ) (v : Option (StructValue F t))
    → PointerReads F t 0 h p v
    → Done h h (deep_copy M t p) (λ c k. PointerReads F t h.next k c v)
deep_copy-PointerReads law t h p v r = (deep_copy-IsDeep law t).at h p v r
