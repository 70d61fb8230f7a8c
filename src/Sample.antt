-- ===== src/Sample.antt =====
-- A small service in memory, for the tests: one bucket with its settings, its versions and whether
-- it exists, one ProviderConfig with its Secret, and helpers that do what apimachinery documents.
pub mod Laws
pub mod Fixtures
pub mod Watching
pub mod Copies
pub mod Living
pub mod Building
use obs_operator.Services.Run.{ok_inj}
use obs_operator.Base.{
  Option, ℕ, String, ◌≡◌, refl, sym, ap, ◌∙◌, Bool, true, false, none, some, List, [], ◌∷◌,
}
use obs_operator.Base.{
  ◌==◌, string_eq, nat_eq, contains, if◌then◌else◌, Bool-cases, inl, inr, eq-of-==, ==_refl,
}
use mathlib.Core.Path.{subst}
use obs_operator.Errors.{GoError, Result, ok, err, obs_error, foreign}
use obs_operator.Api.{Condition, ObjectMeta, ProviderConfig, Secret}
use obs_operator.Services.{
  Tag, BucketEncryptionConfiguration, Services, ObsClient, ObsConstants, GetBucketAclOutput,
  ObjectVersion, ListVersionsOutput, Url, Request, Reply, BucketRequest, BucketReply, on_bucket,
  list_buckets, new_client, close_client, get_bucket, get_provider_config, get_secret,
  list_bucket_objects, list_provider_configs, patch_bucket, patch_bucket_status,
  patch_provider_config_status, get_metadata, delete_bucket, get_storage_policy, get_acl,
  get_versioning, get_tagging, delete_tagging, get_logging, get_encryption, delete_encryption,
  list_versions, create_bucket, set_storage_policy, set_acl, set_versioning, set_tagging,
  set_logging, set_encryption, delete_objects,
}
use obs_operator.BucketController.Acl.{
  flatten_canned_acl, flatten_grants, acl_matches, all_in, grant_signature, normalize_grant_uri,
  grant_signature_eq,
}
use obs_operator.BucketController.Settings.{normalize_storage_class}
use obs_operator.BucketController.Destroy.{page_objects}
use obs_operator.BucketController.Destroy.Emptying.{ListsAndDeletes, Behind, without}
use obs_operator.BucketController.Update.Service.{Settings, KeepsSettings, IsRead}

pub record Store : Type 0 where
  pub settings : Settings
  pub objects : List ObjectVersion
  pub exists : Bool

abbrev pub constants : ObsConstants
constants = record {
  storage_class_standard = "STANDARD";
  storage_class_warm = "WARM";
  storage_class_cold = "COLD";
  acl_private = "private";
  acl_public_read = "public-read";
  acl_public_read_write = "public-read-write";
  acl_log_delivery_write = "log-delivery-write";
  versioning_status_enabled = "Enabled";
  versioning_status_suspended = "Suspended";
  grantee_user = "CanonicalUser";
  grantee_group = "Group";
  group_all_users = "AllUsers";
  group_log_delivery = "LogDelivery";
  permission_full_control = "FULL_CONTROL";
  permission_read = "READ";
  permission_write = "WRITE";
  permission_read_acp = "READ_ACP";
}

abbrev pub service_error : ℕ → String → GoError
service_error status code =
    obs_error (record { status_code = status; code = code; message = ""; text = code })

-- A page of one version.
abbrev page_of : List ObjectVersion → ListVersionsOutput
page_of [] = record { versions = []; delete_markers = []; is_truncated = false }
page_of (x ∷ []) = record { versions = x ∷ []; delete_markers = []; is_truncated = false }
page_of (x ∷ y ∷ ys) = record { versions = x ∷ []; delete_markers = []; is_truncated = true }

abbrev accept : Bool → Store → Store → Result (Unit {0}) × Store
accept test next s = if test then (ok tt, next) else (err (service_error 400 "InvalidArgument"), s)

abbrev change : (Settings → Settings) → Store → Store
change f s = record s { settings = f s.settings }

abbrev remove_bucket : List ObjectVersion → Store → Result (Unit {0}) × Store
remove_bucket [] s = (ok tt, record s { exists = false })
remove_bucket (x ∷ xs) s = (err (service_error 409 "BucketNotEmpty"), s)

abbrev pub private_acl : GetBucketAclOutput
private_acl = record {
  owner_id = "owner";
  grants =
      record {
        grantee_type = "CanonicalUser";
        grantee_id = "owner";
        grantee_uri = "";
        permission = "FULL_CONTROL";
        delivered = false;
      }
      ∷ [];
}

abbrev pub tags_answer : List Tag → Result (List Tag)
tags_answer [] = err (service_error 404 "NoSuchTagSet")
tags_answer (t ∷ ts) = ok (t ∷ ts)

abbrev pub encryption_answer :
    Option BucketEncryptionConfiguration → Result (Option BucketEncryptionConfiguration)
encryption_answer none = err (service_error 404 "NoSuchEncryptionConfiguration")
encryption_answer (some e) = ok (some e)

unfoldable pub ask : (q : BucketRequest) → Store → Result (BucketReply q) × Store
unfolding string_eq without
ask get_metadata s = if s.exists then (ok "3.0", s) else (err (service_error 404 "NoSuchBucket"), s)
ask delete_bucket s = remove_bucket s.objects s
ask get_storage_policy s = (ok s.settings.storage_class, s)
ask get_acl s = (ok s.settings.acl, s)
ask get_versioning s = (ok s.settings.versioning, s)
ask get_tagging s = (tags_answer s.settings.tags, s)
ask delete_tagging s = (ok tt, change (λ t. record t { tags = [] }) s)
ask get_logging s = (ok s.settings.logging, s)
ask get_encryption s = (encryption_answer s.settings.encryption, s)
ask delete_encryption s = (ok tt, change (λ t. record t { encryption = none }) s)
ask list_versions s = (ok (page_of s.objects), s)
ask (create_bucket i) s = (ok tt, record s { exists = true })
ask (set_storage_policy v) s =
    accept (v == "STANDARD") (change (λ t. record t { storage_class = v }) s) s
ask (set_acl v) s = accept (v == "private") (change (λ t. record t { acl = some private_acl }) s) s
ask (set_versioning v) s = (ok tt, change (λ t. record t { versioning = v }) s)
ask (set_tagging v) s = (ok tt, change (λ t. record t { tags = v }) s)
ask (set_logging v) s = (ok tt, change (λ t. record t { logging = some v }) s)
ask (set_encryption v) s = (ok tt, change (λ t. record t { encryption = some v }) s)
ask (delete_objects os) s = (ok 0, record s { objects = without os s.objects })

abbrev pub meta : String → ObjectMeta
meta name = record {
  namespace = "team";
  name = name;
  uid = "u1";
  generation = 2;
  resource_version = "5";
  deletion_timestamp = none;
  finalizers = [];
}

abbrev pub config : ProviderConfig
config = record {
  metadata = meta "otc";
  spec = record {
    region = "eu-de";
    endpoint = "";
    credentials_secret_ref = record { name = "keys" };
  };
  status = record {
    observed_generation = 0;
    last_validation_time = none;
    observed_provider_revision = "";
    conditions = [];
  };
}

abbrev pub secret : Secret
secret = record {
  namespace = "team";
  name = "keys";
  uid = "u2";
  resource_version = "7";
  values = ("accessKeyID", "AK") ∷ ("secretAccessKey", " SK ") ∷ [];
}

abbrev pub blank_secret : Secret
blank_secret = record secret { values = ("accessKeyID", "AK") ∷ ("secretAccessKey", "  ") ∷ [] }

unfoldable pub perform : Secret → (q : Request) → Store → Result (Reply q) × Store
unfolding ask
perform k (on_bucket c n q) s = ask q s
perform k (list_buckets c) s = (ok tt, s)
perform k (new_client c) s = (ok (record { handle = 7 }), s)
perform k (close_client c) s = (ok tt, s)
perform k (get_bucket n) s = (err (service_error 404 "NotFound"), s)
perform k (get_provider_config n) s = (ok config, s)
perform k (get_secret n) s = (ok k, s)
perform k (list_bucket_objects n m) s = (ok [], s)
perform k (list_provider_configs n m) s = (ok [], s)
perform k (patch_bucket b b') s = (ok b', s)
perform k (patch_bucket_status b b') s = (ok tt, s)
perform k (patch_provider_config_status c c') s = (ok tt, s)

-- The condition of the same type is replaced in its place, or the new one is appended.
unfoldable pub set_condition : ℕ → List Condition → Condition → List Condition
unfolding string_eq
set_condition now [] c = record c { last_transition_time = now } ∷ []
set_condition now (d ∷ ds) c =
    if d.kind == c.kind
    then record c {
      last_transition_time = (if d.status == c.status then d.last_transition_time else now);
    }
      ∷ ds
    else d ∷ set_condition now ds c

unfoldable pub add_finalizer : List String → String → List String
unfolding string_eq
add_finalizer fs f = if contains fs f then fs else f ∷ fs

unfoldable pub remove_finalizer : List String → String → List String
unfolding string_eq
remove_finalizer [] f = []
remove_finalizer (g ∷ fs) f = let rest = remove_finalizer fs f in if g == f then rest else g ∷ rest

unfoldable pub parse : String → Result Url
unfolding string_eq
parse s =
    if s == "https://obs.eu-de.otc.t-systems.com"
    then ok (record {
      scheme = "https";
      host = "obs.eu-de.otc.t-systems.com";
      path = "";
      raw_query = "";
      fragment = "";
      others = "";
    })
    else err (foreign (record { text = "no URL"; reason = "" }))

abbrev pub services : Secret → Services
services k = record {
  State = Store;
  perform = perform k;
  ctx_err = λ s. none;
  now = λ s. 12;
  constants = constants;
  is_not_found = λ e. false;
  set_status_condition = set_condition;
  contains_finalizer = λ fs f. contains fs f;
  add_finalizer = add_finalizer;
  remove_finalizer = remove_finalizer;
  url_parse = parse;
  url_string = λ u. "https://obs.eu-de.otc.t-systems.com";
  sha256_hex = λ t. t;
}

abbrev pub client : ObsClient
client = record { handle = 7 }
