-- ===== src/DeepCopy/Structs.antt =====
-- The structs of api/v1alpha1 as they stand in memory, with an address for each map, pointer and
-- slice, and the cells of their heap. What apimachinery keeps inside `metav1.ObjectMeta` and
-- `metav1.ListMeta` is a parameter, a `Foreign`. A struct without references stands in memory as
-- the record of `Api` does.
use obs_operator.Base.{ℕ, String, Bool, Option, List}
use obs_operator.Base.Dict.{Dict}
use obs_operator.Api.{
  Condition, LocalObjectReference, BucketLoggingSpec, BucketServerSideEncryptionSpec,
  ProviderConfigSpec,
}

pub record Foreign : Type 1 where
  pub Meta : Type 0
  pub ListMeta : Type 0
  pub Cell : Type 0
  pub zero_meta : Meta
  pub zero_list_meta : ListMeta

-- `metav1.TypeMeta`
pub record TypeMeta : Type 0 where
  pub kind : String
  pub api_version : String

pub record BucketSpecStruct : Type 0 where
  pub provider_config_ref : LocalObjectReference
  pub storage_class : String
  pub acl : String
  pub versioning : Bool
  pub parallel_fs : Bool
  pub enterprise_project_id : String
  pub tags : Option ℕ
  pub force_destroy : Bool
  pub logging : Option ℕ
  pub server_side_encryption : Option ℕ

pub record BucketStatusStruct : Type 0 where
  pub observed_generation : ℕ
  pub region : String
  pub bucket_domain_name : String
  pub bucket_version : String
  pub last_sync_time : Option ℕ
  pub conditions : Option ℕ

pub record ProviderConfigStatusStruct : Type 0 where
  pub observed_generation : ℕ
  pub last_validation_time : Option ℕ
  pub observed_provider_revision : String
  pub conditions : Option ℕ

module _ (L : Foreign) where
  pub record BucketStruct : Type 0 where
    pub type_meta : TypeMeta
    pub metadata : L.Meta
    pub spec : BucketSpecStruct
    pub status : BucketStatusStruct

  pub record BucketListStruct : Type 0 where
    pub type_meta : TypeMeta
    pub list_meta : L.ListMeta
    pub items : Option ℕ

  pub record ProviderConfigStruct : Type 0 where
    pub type_meta : TypeMeta
    pub metadata : L.Meta
    pub spec : ProviderConfigSpec
    pub status : ProviderConfigStatusStruct

  pub record ProviderConfigListStruct : Type 0 where
    pub type_meta : TypeMeta
    pub list_meta : L.ListMeta
    pub items : Option ℕ

  -- What a cell may hold: an object of the operator's types, the array of a slice, or an object of
  -- apimachinery.
  pub data Object : Type 0 where
    tags_cell : Dict String String → Object
    logging_cell : BucketLoggingSpec → Object
    encryption_cell : BucketServerSideEncryptionSpec → Object
    time_cell : ℕ → Object
    conditions_cell : List Condition → Object
    bucket_spec_cell : BucketSpecStruct → Object
    bucket_status_cell : BucketStatusStruct → Object
    bucket_cell : BucketStruct → Object
    buckets_cell : List BucketStruct → Object
    bucket_list_cell : BucketListStruct → Object
    provider_config_spec_cell : ProviderConfigSpec → Object
    provider_config_status_cell : ProviderConfigStatusStruct → Object
    provider_config_cell : ProviderConfigStruct → Object
    provider_configs_cell : List ProviderConfigStruct → Object
    provider_config_list_cell : ProviderConfigListStruct → Object
    foreign_cell : L.Cell → Object
