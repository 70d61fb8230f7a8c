-- ===== src/Api.antt =====
-- The resources of api/v1alpha1 (bucket_types.go, providerconfig_types.go), by the fields that
-- the controllers read and write, with the parts of `metav1` and `corev1` that they hold.
use obs_operator.Base.{ℕ, String, Bool, true, Option, none, some, List, Eq, ◌==◌, nat_eq}
use obs_operator.Base.{string_discrete}
use obs_operator.Base.Dict.{Dict}
use native.Mathlib.Decide.{ℕ_discrete}

-- `types.NamespacedName`.
pub record NamespacedName : Type 0 where
  pub namespace : String
  pub name : String

NamespacedName-discrete : Discrete NamespacedName
NamespacedName-discrete = hlevel string_discrete

instance unfoldable pub namespaced_name_eq : Eq NamespacedName
unfolding NamespacedName-discrete string_discrete
namespaced_name_eq = record { dec = NamespacedName-discrete }

-- `metav1.Condition`; `status` is "True" or "False" in what the operator writes.
pub record Condition : Type 0 where
  pub kind : String
  pub status : String
  pub reason : String
  pub message : String
  pub observed_generation : ℕ
  pub last_transition_time : ℕ

Condition-discrete : Discrete Condition
Condition-discrete = hlevel (string_discrete, ℕ_discrete)

instance unfoldable pub condition_eq : Eq Condition
unfolding Condition-discrete string_discrete ℕ_discrete
condition_eq = record { dec = Condition-discrete }

-- The part of `metav1.ObjectMeta` that is read. Times are numbers, and 0 is Go's zero time.
pub record ObjectMeta : Type 0 where
  pub namespace : String
  pub name : String
  pub uid : String
  pub generation : ℕ
  pub resource_version : String
  pub deletion_timestamp : Option ℕ
  pub finalizers : List String

-- `corev1.LocalObjectReference`.
pub record LocalObjectReference : Type 0 where
  pub name : String

pub record BucketLoggingSpec : Type 0 where
  pub target_bucket : String
  pub target_prefix : String
  pub agency : String

pub record BucketServerSideEncryptionSpec : Type 0 where
  pub kms_key_id : String
  pub kms_project_id : String

-- `nil` pointers and the `nil` map are `none`.
pub record BucketSpec : Type 0 where
  pub provider_config_ref : LocalObjectReference
  pub storage_class : String
  pub acl : String
  pub versioning : Bool
  pub parallel_fs : Bool
  pub enterprise_project_id : String
  pub tags : Option (Dict String String)
  pub force_destroy : Bool
  pub logging : Option BucketLoggingSpec
  pub server_side_encryption : Option BucketServerSideEncryptionSpec

pub record BucketStatus : Type 0 where
  pub observed_generation : ℕ
  pub region : String
  pub bucket_domain_name : String
  pub bucket_version : String
  pub last_sync_time : Option ℕ
  pub conditions : List Condition

pub record Bucket : Type 0 where
  pub metadata : ObjectMeta
  pub open metadata use *
  pub spec : BucketSpec
  pub status : BucketStatus

pub record ProviderConfigSpec : Type 0 where
  pub region : String
  pub endpoint : String
  pub credentials_secret_ref : LocalObjectReference

pub record ProviderConfigStatus : Type 0 where
  pub observed_generation : ℕ
  pub last_validation_time : Option ℕ
  pub observed_provider_revision : String
  pub conditions : List Condition

pub record ProviderConfig : Type 0 where
  pub metadata : ObjectMeta
  pub open metadata use *
  pub spec : ProviderConfigSpec
  pub status : ProviderConfigStatus

-- `corev1.Secret`, its data read as texts.
pub record Secret : Type 0 where
  pub namespace : String
  pub name : String
  pub uid : String
  pub resource_version : String
  pub values : Dict String String

-- `(*metav1.Time).IsZero`.
abbrev pub is_zero : Option ℕ → Bool
is_zero none = true
is_zero (some t) = t == 0
