-- ===== src/BucketController/Settings.antt =====
-- The settings that a Bucket asks for, in the terms of OBS, and the comparisons with what OBS
-- reports.
pub mod Tags
use Prim.Native.String.{compare}
use text.Mathlib.Text.{is_le}
use obs_operator.Base.{String, ◌<>◌, Bool, true, false, ◌&&◌, Option, none, some, List, [], ◌∷◌}
use obs_operator.Base.{map, ◌==◌, string_eq, nat_eq, option_eq, length, if◌then◌else◌}
use obs_operator.Base.Dict.{Dict, lookup, insert}
use obs_operator.Api.{Bucket, BucketServerSideEncryptionSpec}
use obs_operator.Services.{ObsConstants, Tag, BucketLoggingStatus, BucketEncryptionConfiguration}

module _ (C : ObsConstants) where
  unfoldable pub normalize_storage_class : String → String
  unfolding string_eq
  normalize_storage_class class =
      if class == "STANDARD_IA"
      then C.storage_class_warm
      else if class == "GLACIER"
      then C.storage_class_cold
      else class

  unfoldable pub bucket_storage_class : Bucket → String
  unfolding string_eq
  bucket_storage_class b =
      if b.spec.storage_class == "" then C.storage_class_standard else b.spec.storage_class

  unfoldable pub bucket_acl : Bucket → String
  unfolding string_eq
  bucket_acl b = if b.spec.acl == "" then C.acl_private else b.spec.acl

  unfoldable pub bucket_versioning : Bucket → String
  bucket_versioning b =
      if b.spec.versioning then C.versioning_status_enabled else C.versioning_status_suspended

unfoldable pub bucket_domain_name : String → String → String
bucket_domain_name name region = name <> ".obs." <> region <> ".otc.t-systems.com"

-- `desired := bucket.Spec.Tags`, with an empty map for `nil`.
unfoldable pub desired_tags : Bucket → Dict String String
desired_tags b = elim (b.spec.tags) [ none ↦ [] | some tags ↦ tags ]

-- The map of the tags that OBS lists: a later tag of the same key wins.
unfoldable pub tag_map : Dict String String → List Tag → Dict String String
tag_map d [] = d
tag_map d (t ∷ ts) = tag_map (insert t.key t.value d) ts

-- `maps.Equal`: as many entries, and every entry of the first is in the second.
unfoldable pub all_entries_in : Dict String String → Dict String String → Bool
unfolding lookup string_eq option_eq
all_entries_in [] m = true
all_entries_in ((k, v) ∷ d) m = lookup k m == some v && all_entries_in d m

unfoldable pub maps_equal : Dict String String → Dict String String → Bool
unfolding all_entries_in nat_eq
maps_equal a b = if length a == length b then all_entries_in a b else false

-- `sort.Strings`, as an insertion sort by the byte order of texts.
unfoldable pub insert_sorted : String → List String → List String
insert_sorted s [] = s ∷ []
insert_sorted s (t ∷ ts) = if is_le (compare s t) then s ∷ t ∷ ts else t ∷ insert_sorted s ts

unfoldable pub sort_strings : List String → List String
unfolding insert_sorted
sort_strings [] = []
sort_strings (s ∷ ss) = insert_sorted s (sort_strings ss)

-- `src[key]`, which is empty for a missing key.
unfoldable pub value_at : Dict String String → String → String
unfolding lookup string_eq
value_at d k = elim (lookup k d) [ none ↦ "" | some v ↦ v ]

unfoldable pub tags_from_map : Dict String String → List Tag
unfolding sort_strings value_at
tags_from_map src =
    map (λ k. record { key = k; value = value_at src k }) (sort_strings (map (λ (k, _). k) src))

-- `loggingInput`, without the bucket's name.
unfoldable pub logging_input : Bucket → BucketLoggingStatus
logging_input b = elim (b.spec.logging) [
  | none ↦ record { target_bucket = ""; target_prefix = ""; agency = "" }
  | some l ↦ record {
    target_bucket = l.target_bucket;
    target_prefix = l.target_prefix;
    agency = l.agency;
  }
]

unfoldable pub logging_matches : Option BucketLoggingStatus → BucketLoggingStatus → Bool
unfolding string_eq
logging_matches none desired =
    desired.target_bucket == "" && desired.target_prefix == "" && desired.agency == ""
logging_matches (some current) desired =
    current.target_bucket == desired.target_bucket
    && current.target_prefix == desired.target_prefix
    && current.agency == desired.agency

unfoldable pub encryption_config : BucketServerSideEncryptionSpec → BucketEncryptionConfiguration
encryption_config spec = record {
  sse_algorithm = "kms";
  kms_master_key_id = spec.kms_key_id;
  project_id = spec.kms_project_id;
}

unfoldable pub encryption_matches :
    Option BucketEncryptionConfiguration → BucketEncryptionConfiguration → Bool
unfolding string_eq
encryption_matches none desired = false
encryption_matches (some current) desired =
    current.sse_algorithm == desired.sse_algorithm
    && current.kms_master_key_id == desired.kms_master_key_id
    && current.project_id == desired.project_id
