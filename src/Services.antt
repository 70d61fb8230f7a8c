-- ===== src/Services.antt =====
-- What the operator calls and does not implement: the Kubernetes API server behind
-- `client.Client`, the OBS client library with the service behind it, `net/url`, SHA-256 and the
-- helpers of apimachinery. All of it is one record `Services`, a parameter of the model. A call is
-- a value of `Request`, its answer a `Result (Reply request)`, and `perform` runs it on a state
-- that the model does not look into.
pub mod Action
pub mod Trace
pub mod Run
pub mod Serving
pub mod Costs
use obs_operator.Base.{ℕ, String, Bool, Option, List}
use obs_operator.Errors.{GoError, Result}
use obs_operator.Api.{NamespacedName, Condition, Bucket, ProviderConfig, Secret}

-- An `*obs.ObsClient`, known by a number.
pub record ObsClient : Type 0 where
  pub handle : ℕ

-- What `obs.New` is called with, as `newOBSClient` does.
pub record ObsConfig : Type 0 where
  pub access_key_id : String
  pub secret_access_key : String
  pub security_token : String
  pub endpoint : String
  pub region : String

-- `obs.CreateBucketInput`, without the bucket's name.
pub record CreateBucketInput : Type 0 where
  pub acl : String
  pub is_fs_file_interface : Bool
  pub storage_class : String
  pub epid : String
  pub location : String

-- `obs.Grant` with its grantee.
pub record Grant : Type 0 where
  pub grantee_type : String
  pub grantee_id : String
  pub grantee_uri : String
  pub permission : String
  pub delivered : Bool

pub record GetBucketAclOutput : Type 0 where
  pub owner_id : String
  pub grants : List Grant

pub record Tag : Type 0 where
  pub key : String
  pub value : String

pub record BucketLoggingStatus : Type 0 where
  pub target_bucket : String
  pub target_prefix : String
  pub agency : String

pub record BucketEncryptionConfiguration : Type 0 where
  pub sse_algorithm : String
  pub kms_master_key_id : String
  pub project_id : String

-- A version or a delete marker, and `obs.ObjectToDelete`.
pub record ObjectVersion : Type 0 where
  pub key : String
  pub version_id : String

pub record ListVersionsOutput : Type 0 where
  pub versions : List ObjectVersion
  pub delete_markers : List ObjectVersion
  pub is_truncated : Bool

-- `url.URL`: the fields that are read or reset, and all others in one text.
pub record Url : Type 0 where
  pub scheme : String
  pub host : String
  pub path : String
  pub raw_query : String
  pub fragment : String
  pub others : String

-- The requests to OBS on one bucket, after the client's method and its input.
pub data BucketRequest : Type 0 where
  get_metadata delete_bucket get_storage_policy get_acl get_versioning : BucketRequest
  get_tagging delete_tagging get_logging get_encryption delete_encryption : BucketRequest
  list_versions : BucketRequest
  create_bucket : CreateBucketInput → BucketRequest
  set_storage_policy set_acl set_versioning : String → BucketRequest
  set_tagging : List Tag → BucketRequest
  set_logging : BucketLoggingStatus → BucketRequest
  set_encryption : BucketEncryptionConfiguration → BucketRequest
  delete_objects : List ObjectVersion → BucketRequest

-- What a method returns beside its error. Outputs that the code tests for `nil` are options, and
-- `delete_objects` gives the number of its object errors, `get_metadata` the bucket's version.
abbrev pub BucketReply : BucketRequest → Type 0
BucketReply get_metadata = String
BucketReply get_storage_policy = String
BucketReply get_acl = Option GetBucketAclOutput
BucketReply get_versioning = String
BucketReply get_tagging = List Tag
BucketReply get_logging = Option BucketLoggingStatus
BucketReply get_encryption = Option BucketEncryptionConfiguration
BucketReply list_versions = ListVersionsOutput
BucketReply (delete_objects _) = ℕ
BucketReply _ = Unit {0}

pub data Request : Type 0 where
  -- OBS: a request on the named bucket, `ListBuckets`, `obs.New` and `Close`.
  on_bucket : ObsClient → String → BucketRequest → Request
  list_buckets : ObsClient → Request
  new_client : ObsConfig → Request
  close_client : ObsClient → Request
  -- Kubernetes: `Get`, `List` in a namespace by an index key, and `Patch` of an object against
  -- the original that it is merged from.
  get_bucket get_provider_config get_secret : NamespacedName → Request
  list_bucket_objects list_provider_configs : String → String → Request
  patch_bucket patch_bucket_status : Bucket → Bucket → Request
  patch_provider_config_status : ProviderConfig → ProviderConfig → Request

abbrev pub Reply : Request → Type 0
Reply (on_bucket _ _ q) = BucketReply q
Reply (new_client _) = ObsClient
Reply (get_bucket _) = Bucket
Reply (get_provider_config _) = ProviderConfig
Reply (get_secret _) = Secret
Reply (list_bucket_objects _ _) = List Bucket
Reply (list_provider_configs _ _) = List ProviderConfig
-- `Patch` writes the server's answer into the object.
Reply (patch_bucket _ _) = Bucket
Reply _ = Unit {0}

-- The constants of the OBS client library that the source names.
pub record ObsConstants : Type 0 where
  pub storage_class_standard : String
  pub storage_class_warm : String
  pub storage_class_cold : String
  pub acl_private : String
  pub acl_public_read : String
  pub acl_public_read_write : String
  pub acl_log_delivery_write : String
  pub versioning_status_enabled : String
  pub versioning_status_suspended : String
  pub grantee_user : String
  pub grantee_group : String
  pub group_all_users : String
  pub group_log_delivery : String
  pub permission_full_control : String
  pub permission_read : String
  pub permission_write : String
  pub permission_read_acp : String

pub record Services : Type 1 where
  pub State : Type 0
  pub perform : (q : Request) → State → Result (Reply q) × State
  -- `ctx.Err()` and `metav1.Now()`.
  pub ctx_err : State → Option GoError
  pub now : State → ℕ
  pub constants : ObsConstants
  -- `apierrors.IsNotFound`, and `meta.SetStatusCondition` at a time.
  pub is_not_found : GoError → Bool
  pub set_status_condition : ℕ → List Condition → Condition → List Condition
  -- `controllerutil.ContainsFinalizer`, `AddFinalizer` and `RemoveFinalizer`, on the finalizers
  -- of an object.
  pub contains_finalizer : List String → String → Bool
  pub add_finalizer : List String → String → List String
  pub remove_finalizer : List String → String → List String
  -- `url.Parse`, its error by its text, and `(*URL).String`.
  pub url_parse : String → Result Url
  pub url_string : Url → String
  -- The hexadecimal SHA-256 of a text.
  pub sha256_hex : String → String
