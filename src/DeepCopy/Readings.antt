-- ===== src/DeepCopy/Readings.antt =====
-- What the structs in memory read as: the records of `Api`. A map reads as its entries in any
-- order, and a nil slice as an empty one.
use obs_operator.Base.{ℕ, String, string_eq, ◌≡◌, Option, none, some, List, [], ◌∷◌}
use obs_operator.Base.Dict.{Dict, lookup, NodupKeys}
use obs_operator.Api.{Condition, ObjectMeta, BucketSpec, BucketStatus, ProviderConfigStatus}
use obs_operator.Api
use obs_operator.DeepCopy.Memory.{Heap, Slot}
use obs_operator.DeepCopy.Compose.{Reading, Shows, IsMonotone, IsDeep}
use obs_operator.DeepCopy.Parts.{Plain, Nullable, Each, Behind, Each-IsMonotone, Behind-IsMonotone}
use obs_operator.DeepCopy.Structs.{
  Foreign, TypeMeta, BucketSpecStruct, BucketStatusStruct, BucketStruct, BucketListStruct,
  ProviderConfigStatusStruct, ProviderConfigStruct, ProviderConfigListStruct, Object,
}
use obs_operator.DeepCopy.Slots.{
  tags_slot, logging_slot, encryption_slot, time_slot, conditions_slot, buckets_slot,
  provider_configs_slot,
}
use obs_operator.DeepCopy.Copy.{Apimachinery}

-- What the parts of apimachinery read as.
pub record ForeignReadings (L : Foreign) : Type 1 where
  pub ListMetaValue : Type 0
  pub meta : Reading (Object L) L.Meta ObjectMeta
  pub list_meta : Reading (Object L) L.ListMeta ListMetaValue

-- The deep copies of apimachinery copy deeply.
pub record IsApimachinery {L : Foreign} (F : ForeignReadings L) (M : Apimachinery L) : Type 0 where
  pub meta_monotone : IsMonotone F.meta
  pub meta_deep : IsDeep F.meta M.meta_deep_copy_into
  pub list_meta_monotone : IsMonotone F.list_meta
  pub list_meta_deep : IsDeep F.list_meta M.list_meta_deep_copy_into
  pub condition_deep : IsDeep Plain M.condition_deep_copy_into
  pub time_deep : IsDeep (Behind time_slot Plain) M.time_deep_copy

-- Two maps with the same entries.
pub record AreSameMap (d v : Dict String String) : Type 0 where
  pub keys_once : NodupKeys d
  pub entries : (key : String) → lookup key d ≡ lookup key v

module _ {O : Type 0} where
  abbrev pub TagsRead : Reading O (Dict String String) (Dict String String)
  TagsRead lo h d v = AreSameMap d v

  pub TagsRead-IsMonotone : IsMonotone TagsRead
  TagsRead-IsMonotone = record { at = λ lo lo' h k d v s r. r }

  -- A slice whose array stands in a slot.
  abbrev pub Slice :
      {A V : Type 0} → Slot O (List A) → Reading O A V → Reading O (Option ℕ) (List V)
  Slice slot R lo h none [] = Unit
  Slice slot R lo h none (v ∷ vs) = ⊥
  Slice slot R lo h (some a) vs = Behind slot (Each R) lo h a vs

  pub Slice-IsMonotone :
      {A V : Type 0} (slot : Slot O (List A)) {R : Reading O A V}
      → IsMonotone R
      → IsMonotone (Slice slot R)
  Slice-IsMonotone {A} {V} slot {R} mono = record { at = go }
    where
      go :
          (lo lo' : ℕ) (h k : Heap O) (a : Option ℕ) (v : List V)
          → Shows lo h lo' k
          → Slice slot R lo h a v
          → Slice slot R lo' k a v
      go lo lo' h k none [] s r = tt
      go lo lo' h k none (v ∷ vs) s r = r
      go lo lo' h k (some a) vs s r =
          (Behind-IsMonotone (Each-IsMonotone mono) slot).at lo lo' h k a vs s r

module _ {L : Foreign} where
  pub record BucketSpecReads (lo : ℕ) (h : Heap (Object L)) (m : BucketSpecStruct) (v : BucketSpec)
      : Type 0 where
    pub provider_config_ref : m.provider_config_ref ≡ v.provider_config_ref
    pub storage_class : m.storage_class ≡ v.storage_class
    pub acl : m.acl ≡ v.acl
    pub versioning : m.versioning ≡ v.versioning
    pub parallel_fs : m.parallel_fs ≡ v.parallel_fs
    pub enterprise_project_id : m.enterprise_project_id ≡ v.enterprise_project_id
    pub tags : Nullable (Behind tags_slot TagsRead) lo h m.tags v.tags
    pub force_destroy : m.force_destroy ≡ v.force_destroy
    pub logging : Nullable (Behind logging_slot Plain) lo h m.logging v.logging
    pub server_side_encryption :
        Nullable
          (Behind encryption_slot Plain)
          lo
          h
          m.server_side_encryption
          v.server_side_encryption

  pub record BucketStatusReads (lo : ℕ) (h : Heap (Object L)) (m : BucketStatusStruct)
      (v : BucketStatus) : Type 0 where
    pub observed_generation : m.observed_generation ≡ v.observed_generation
    pub region : m.region ≡ v.region
    pub bucket_domain_name : m.bucket_domain_name ≡ v.bucket_domain_name
    pub bucket_version : m.bucket_version ≡ v.bucket_version
    pub last_sync_time : Nullable (Behind time_slot Plain) lo h m.last_sync_time v.last_sync_time
    pub conditions : Slice conditions_slot Plain lo h m.conditions v.conditions

  pub record ProviderConfigStatusReads (lo : ℕ) (h : Heap (Object L))
      (m : ProviderConfigStatusStruct) (v : ProviderConfigStatus) : Type 0 where
    pub observed_generation : m.observed_generation ≡ v.observed_generation
    pub last_validation_time :
        Nullable (Behind time_slot Plain) lo h m.last_validation_time v.last_validation_time
    pub observed_provider_revision : m.observed_provider_revision ≡ v.observed_provider_revision
    pub conditions : Slice conditions_slot Plain lo h m.conditions v.conditions

pub record BucketValue : Type 0 where
  pub type_meta : TypeMeta
  pub object : Api.Bucket

pub record ProviderConfigValue : Type 0 where
  pub type_meta : TypeMeta
  pub object : Api.ProviderConfig

pub record ListValue (M V : Type 0) : Type 0 where
  pub type_meta : TypeMeta
  pub list_meta : M
  pub items : List V

module _ {L : Foreign} (F : ForeignReadings L) where
  pub record BucketReads (lo : ℕ) (h : Heap (Object L)) (m : BucketStruct L) (v : BucketValue)
      : Type 0 where
    pub type_meta : m.type_meta ≡ v.type_meta
    pub metadata : F.meta lo h m.metadata v.object.metadata
    pub spec : BucketSpecReads lo h m.spec v.object.spec
    pub status : BucketStatusReads lo h m.status v.object.status

  pub record ProviderConfigReads (lo : ℕ) (h : Heap (Object L)) (m : ProviderConfigStruct L)
      (v : ProviderConfigValue) : Type 0 where
    pub type_meta : m.type_meta ≡ v.type_meta
    pub metadata : F.meta lo h m.metadata v.object.metadata
    pub spec : m.spec ≡ v.object.spec
    pub status : ProviderConfigStatusReads lo h m.status v.object.status

  pub record BucketListReads (lo : ℕ) (h : Heap (Object L)) (m : BucketListStruct L)
      (v : ListValue F.ListMetaValue BucketValue) : Type 0 where
    pub type_meta : m.type_meta ≡ v.type_meta
    pub list_meta : F.list_meta lo h m.list_meta v.list_meta
    pub items : Slice buckets_slot BucketReads lo h m.items v.items

  pub record ProviderConfigListReads (lo : ℕ) (h : Heap (Object L)) (m : ProviderConfigListStruct L)
      (v : ListValue F.ListMetaValue ProviderConfigValue) : Type 0 where
    pub type_meta : m.type_meta ≡ v.type_meta
    pub list_meta : F.list_meta lo h m.list_meta v.list_meta
    pub items : Slice provider_configs_slot ProviderConfigReads lo h m.items v.items
