-- ===== src/DeepCopy/Objects.antt =====
-- `DeepCopy` by the type of its receiver, and `DeepCopyObject` of the four types that implement
-- `runtime.Object`. An interface value is nil, or it holds a dynamic type and a pointer, which may
-- be nil in an interface that is not.
use obs_operator.Base.{ℕ, Option, none, some}
use obs_operator.Api.{BucketLoggingSpec, BucketServerSideEncryptionSpec, ProviderConfigSpec}
use obs_operator.Api.{BucketSpec, BucketStatus, ProviderConfigStatus}
use obs_operator.DeepCopy.Memory.{Run, Slot, pure, ◌>>=◌}
use obs_operator.DeepCopy.Compose.{Reading}
use obs_operator.DeepCopy.Parts.{Plain}
use obs_operator.DeepCopy.Structs.{
  Foreign, Object, BucketStruct, BucketListStruct, BucketSpecStruct, BucketStatusStruct,
  ProviderConfigStruct, ProviderConfigListStruct, ProviderConfigStatusStruct,
}
use obs_operator.DeepCopy.Slots.{
  logging_slot, encryption_slot, bucket_spec_slot, bucket_status_slot, bucket_slot,
  bucket_list_slot, provider_config_spec_slot, provider_config_status_slot, provider_config_slot,
  provider_config_list_slot,
}
use obs_operator.DeepCopy.Copy.{
  Apimachinery, bucket_logging_spec_deep_copy, bucket_encryption_spec_deep_copy,
  bucket_spec_deep_copy, bucket_status_deep_copy, bucket_deep_copy, bucket_list_deep_copy,
  provider_config_spec_deep_copy, provider_config_status_deep_copy, provider_config_deep_copy,
  provider_config_list_deep_copy,
}
use obs_operator.DeepCopy.Readings.{
  ForeignReadings, BucketValue, ProviderConfigValue, ListValue, BucketSpecReads, BucketStatusReads,
  ProviderConfigStatusReads, BucketReads, ProviderConfigReads, BucketListReads,
  ProviderConfigListReads,
}

-- The types that have a `DeepCopy`.
pub data StructType : Type 0 where
  bucket_type bucket_list_type provider_config_type provider_config_list_type : StructType
  bucket_spec_type bucket_status_type logging_type encryption_type : StructType
  provider_config_spec_type provider_config_status_type : StructType

abbrev pub Struct : Foreign → StructType → Type 0
Struct L bucket_type = BucketStruct L
Struct L bucket_list_type = BucketListStruct L
Struct L provider_config_type = ProviderConfigStruct L
Struct L provider_config_list_type = ProviderConfigListStruct L
Struct L bucket_spec_type = BucketSpecStruct
Struct L bucket_status_type = BucketStatusStruct
Struct L logging_type = BucketLoggingSpec
Struct L encryption_type = BucketServerSideEncryptionSpec
Struct L provider_config_spec_type = ProviderConfigSpec
Struct L provider_config_status_type = ProviderConfigStatusStruct

module _ {L : Foreign} where
  abbrev pub struct_slot : (t : StructType) → Slot (Object L) (Struct L t)
  struct_slot bucket_type = bucket_slot
  struct_slot bucket_list_type = bucket_list_slot
  struct_slot provider_config_type = provider_config_slot
  struct_slot provider_config_list_type = provider_config_list_slot
  struct_slot bucket_spec_type = bucket_spec_slot
  struct_slot bucket_status_type = bucket_status_slot
  struct_slot logging_type = logging_slot
  struct_slot encryption_type = encryption_slot
  struct_slot provider_config_spec_type = provider_config_spec_slot
  struct_slot provider_config_status_type = provider_config_status_slot

module _ {L : Foreign} (F : ForeignReadings L) where
  abbrev pub StructValue : StructType → Type 0
  StructValue bucket_type = BucketValue
  StructValue bucket_list_type = ListValue F.ListMetaValue BucketValue
  StructValue provider_config_type = ProviderConfigValue
  StructValue provider_config_list_type = ListValue F.ListMetaValue ProviderConfigValue
  StructValue bucket_spec_type = BucketSpec
  StructValue bucket_status_type = BucketStatus
  StructValue logging_type = BucketLoggingSpec
  StructValue encryption_type = BucketServerSideEncryptionSpec
  StructValue provider_config_spec_type = ProviderConfigSpec
  StructValue provider_config_status_type = ProviderConfigStatus

  abbrev pub StructReads : (t : StructType) → Reading (Object L) (Struct L t) (StructValue t)
  StructReads bucket_type = BucketReads F
  StructReads bucket_list_type = BucketListReads F
  StructReads provider_config_type = ProviderConfigReads F
  StructReads provider_config_list_type = ProviderConfigListReads F
  StructReads bucket_spec_type = BucketSpecReads
  StructReads bucket_status_type = BucketStatusReads
  StructReads logging_type = Plain
  StructReads encryption_type = Plain
  StructReads provider_config_spec_type = Plain
  StructReads provider_config_status_type = ProviderConfigStatusReads

pub data RuntimeObject : Type 0 where
  nil_object : RuntimeObject
  object : StructType → Option ℕ → RuntimeObject

-- `if c := in.DeepCopy(); c != nil { return c }; return nil`
unfoldable pub as_object : StructType → Option ℕ → RuntimeObject
as_object t none = nil_object
as_object t (some a) = object t (some a)

module _ {L : Foreign} (M : Apimachinery L) where
  unfoldable pub deep_copy : StructType → Option ℕ → Run (Object L) (Option ℕ)
  unfolding bucket_logging_spec_deep_copy bucket_encryption_spec_deep_copy bucket_spec_deep_copy
      bucket_status_deep_copy bucket_deep_copy bucket_list_deep_copy provider_config_spec_deep_copy
      provider_config_status_deep_copy provider_config_deep_copy provider_config_list_deep_copy
  deep_copy bucket_type = bucket_deep_copy M
  deep_copy bucket_list_type = bucket_list_deep_copy M
  deep_copy provider_config_type = provider_config_deep_copy M
  deep_copy provider_config_list_type = provider_config_list_deep_copy M
  deep_copy bucket_spec_type = bucket_spec_deep_copy M
  deep_copy bucket_status_type = bucket_status_deep_copy M
  deep_copy logging_type = bucket_logging_spec_deep_copy M
  deep_copy encryption_type = bucket_encryption_spec_deep_copy M
  deep_copy provider_config_spec_type = provider_config_spec_deep_copy M
  deep_copy provider_config_status_type = provider_config_status_deep_copy M

  unfoldable pub bucket_deep_copy_object : Option ℕ → Run (Object L) RuntimeObject
  bucket_deep_copy_object p = bucket_deep_copy M p >>= λ c. pure (as_object bucket_type c)

  unfoldable pub bucket_list_deep_copy_object : Option ℕ → Run (Object L) RuntimeObject
  bucket_list_deep_copy_object p =
      bucket_list_deep_copy M p >>= λ c. pure (as_object bucket_list_type c)

  unfoldable pub provider_config_deep_copy_object : Option ℕ → Run (Object L) RuntimeObject
  provider_config_deep_copy_object p =
      provider_config_deep_copy M p >>= λ c. pure (as_object provider_config_type c)

  unfoldable pub provider_config_list_deep_copy_object : Option ℕ → Run (Object L) RuntimeObject
  provider_config_list_deep_copy_object p =
      provider_config_list_deep_copy M p >>= λ c. pure (as_object provider_config_list_type c)

-- The types that implement `runtime.Object`.
pub data RootType : Type 0 where
  bucket_root bucket_list_root provider_config_root provider_config_list_root : RootType

abbrev pub struct_type : RootType → StructType
struct_type bucket_root = bucket_type
struct_type bucket_list_root = bucket_list_type
struct_type provider_config_root = provider_config_type
struct_type provider_config_list_root = provider_config_list_type

-- The method of `runtime.Object`, by the type of the receiver.
unfoldable pub deep_copy_object :
    {L : Foreign} → Apimachinery L → RootType → Option ℕ → Run (Object L) RuntimeObject
unfolding bucket_deep_copy_object bucket_list_deep_copy_object provider_config_deep_copy_object
    provider_config_list_deep_copy_object
deep_copy_object M bucket_root = bucket_deep_copy_object M
deep_copy_object M bucket_list_root = bucket_list_deep_copy_object M
deep_copy_object M provider_config_root = provider_config_deep_copy_object M
deep_copy_object M provider_config_list_root = provider_config_list_deep_copy_object M
