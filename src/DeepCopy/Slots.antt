-- ===== src/DeepCopy/Slots.antt =====
-- How each type stands in a cell, with its zero value. A slot gives back what it holds.
use obs_operator.Base.{ℕ, String, false, refl, Option, none, some, List, []}
use obs_operator.Base.Dict.{Dict}
use obs_operator.Api.{
  Condition, BucketLoggingSpec, BucketServerSideEncryptionSpec, ProviderConfigSpec,
}
use obs_operator.DeepCopy.Memory.{Slot}
use obs_operator.DeepCopy.Cells.{IsSlot}
use obs_operator.DeepCopy.Structs.{
  Foreign, TypeMeta, BucketSpecStruct, BucketStatusStruct, BucketStruct, BucketListStruct,
  ProviderConfigStatusStruct, ProviderConfigStruct, ProviderConfigListStruct, Object, tags_cell,
  logging_cell, encryption_cell, time_cell, conditions_cell, bucket_spec_cell, bucket_status_cell,
  bucket_cell, buckets_cell, bucket_list_cell, provider_config_spec_cell,
  provider_config_status_cell, provider_config_cell, provider_configs_cell,
  provider_config_list_cell,
}

abbrev zero_type_meta : TypeMeta
zero_type_meta = record { kind = ""; api_version = "" }

abbrev zero_bucket_spec : BucketSpecStruct
zero_bucket_spec = record {
  provider_config_ref = record { name = "" };
  storage_class = "";
  acl = "";
  versioning = false;
  parallel_fs = false;
  enterprise_project_id = "";
  tags = none;
  force_destroy = false;
  logging = none;
  server_side_encryption = none;
}

abbrev zero_bucket_status : BucketStatusStruct
zero_bucket_status = record {
  observed_generation = 0;
  region = "";
  bucket_domain_name = "";
  bucket_version = "";
  last_sync_time = none;
  conditions = none;
}

abbrev zero_provider_config_spec : ProviderConfigSpec
zero_provider_config_spec = record {
  region = "";
  endpoint = "";
  credentials_secret_ref = record { name = "" };
}

abbrev zero_provider_config_status : ProviderConfigStatusStruct
zero_provider_config_status = record {
  observed_generation = 0;
  last_validation_time = none;
  observed_provider_revision = "";
  conditions = none;
}

module _ {L : Foreign} where
  abbrev held_tags : Object L → Option (Dict String String)
  held_tags (tags_cell x) = some x
  held_tags _ = none

  abbrev pub tags_slot : Slot (Object L) (Dict String String)
  tags_slot = record { hold = tags_cell; held = held_tags; zero_value = [] }

  pub tags_slot-IsSlot : IsSlot tags_slot
  tags_slot-IsSlot = record { at = λ x. refl }

  abbrev held_logging : Object L → Option (BucketLoggingSpec)
  held_logging (logging_cell x) = some x
  held_logging _ = none

  abbrev pub logging_slot : Slot (Object L) (BucketLoggingSpec)
  logging_slot = record {
    hold = logging_cell;
    held = held_logging;
    zero_value = record { target_bucket = ""; target_prefix = ""; agency = "" };
  }

  pub logging_slot-IsSlot : IsSlot logging_slot
  logging_slot-IsSlot = record { at = λ x. refl }

  abbrev held_encryption : Object L → Option (BucketServerSideEncryptionSpec)
  held_encryption (encryption_cell x) = some x
  held_encryption _ = none

  abbrev pub encryption_slot : Slot (Object L) (BucketServerSideEncryptionSpec)
  encryption_slot = record {
    hold = encryption_cell;
    held = held_encryption;
    zero_value = record { kms_key_id = ""; kms_project_id = "" };
  }

  pub encryption_slot-IsSlot : IsSlot encryption_slot
  encryption_slot-IsSlot = record { at = λ x. refl }

  abbrev held_time : Object L → Option (ℕ)
  held_time (time_cell x) = some x
  held_time _ = none

  abbrev pub time_slot : Slot (Object L) (ℕ)
  time_slot = record { hold = time_cell; held = held_time; zero_value = 0 }

  pub time_slot-IsSlot : IsSlot time_slot
  time_slot-IsSlot = record { at = λ x. refl }

  abbrev held_conditions : Object L → Option (List Condition)
  held_conditions (conditions_cell x) = some x
  held_conditions _ = none

  abbrev pub conditions_slot : Slot (Object L) (List Condition)
  conditions_slot = record { hold = conditions_cell; held = held_conditions; zero_value = [] }

  pub conditions_slot-IsSlot : IsSlot conditions_slot
  conditions_slot-IsSlot = record { at = λ x. refl }

  abbrev held_bucket_spec : Object L → Option (BucketSpecStruct)
  held_bucket_spec (bucket_spec_cell x) = some x
  held_bucket_spec _ = none

  abbrev pub bucket_spec_slot : Slot (Object L) (BucketSpecStruct)
  bucket_spec_slot = record {
    hold = bucket_spec_cell;
    held = held_bucket_spec;
    zero_value = zero_bucket_spec;
  }

  pub bucket_spec_slot-IsSlot : IsSlot bucket_spec_slot
  bucket_spec_slot-IsSlot = record { at = λ x. refl }

  abbrev held_bucket_status : Object L → Option (BucketStatusStruct)
  held_bucket_status (bucket_status_cell x) = some x
  held_bucket_status _ = none

  abbrev pub bucket_status_slot : Slot (Object L) (BucketStatusStruct)
  bucket_status_slot = record {
    hold = bucket_status_cell;
    held = held_bucket_status;
    zero_value = zero_bucket_status;
  }

  pub bucket_status_slot-IsSlot : IsSlot bucket_status_slot
  bucket_status_slot-IsSlot = record { at = λ x. refl }

  abbrev held_bucket : Object L → Option (BucketStruct L)
  held_bucket (bucket_cell x) = some x
  held_bucket _ = none

  abbrev pub bucket_slot : Slot (Object L) (BucketStruct L)
  bucket_slot = record {
    hold = bucket_cell;
    held = held_bucket;
    zero_value = record {
      type_meta = zero_type_meta;
      metadata = L.zero_meta;
      spec = zero_bucket_spec;
      status = zero_bucket_status;
    };
  }

  pub bucket_slot-IsSlot : IsSlot bucket_slot
  bucket_slot-IsSlot = record { at = λ x. refl }

  abbrev held_buckets : Object L → Option (List (BucketStruct L))
  held_buckets (buckets_cell x) = some x
  held_buckets _ = none

  abbrev pub buckets_slot : Slot (Object L) (List (BucketStruct L))
  buckets_slot = record { hold = buckets_cell; held = held_buckets; zero_value = [] }

  pub buckets_slot-IsSlot : IsSlot buckets_slot
  buckets_slot-IsSlot = record { at = λ x. refl }

  abbrev held_bucket_list : Object L → Option (BucketListStruct L)
  held_bucket_list (bucket_list_cell x) = some x
  held_bucket_list _ = none

  abbrev pub bucket_list_slot : Slot (Object L) (BucketListStruct L)
  bucket_list_slot = record {
    hold = bucket_list_cell;
    held = held_bucket_list;
    zero_value = record { type_meta = zero_type_meta; list_meta = L.zero_list_meta; items = none };
  }

  pub bucket_list_slot-IsSlot : IsSlot bucket_list_slot
  bucket_list_slot-IsSlot = record { at = λ x. refl }

  abbrev held_provider_config_spec : Object L → Option (ProviderConfigSpec)
  held_provider_config_spec (provider_config_spec_cell x) = some x
  held_provider_config_spec _ = none

  abbrev pub provider_config_spec_slot : Slot (Object L) (ProviderConfigSpec)
  provider_config_spec_slot = record {
    hold = provider_config_spec_cell;
    held = held_provider_config_spec;
    zero_value = zero_provider_config_spec;
  }

  pub provider_config_spec_slot-IsSlot : IsSlot provider_config_spec_slot
  provider_config_spec_slot-IsSlot = record { at = λ x. refl }

  abbrev held_provider_config_status : Object L → Option (ProviderConfigStatusStruct)
  held_provider_config_status (provider_config_status_cell x) = some x
  held_provider_config_status _ = none

  abbrev pub provider_config_status_slot : Slot (Object L) (ProviderConfigStatusStruct)
  provider_config_status_slot = record {
    hold = provider_config_status_cell;
    held = held_provider_config_status;
    zero_value = zero_provider_config_status;
  }

  pub provider_config_status_slot-IsSlot : IsSlot provider_config_status_slot
  provider_config_status_slot-IsSlot = record { at = λ x. refl }

  abbrev held_provider_config : Object L → Option (ProviderConfigStruct L)
  held_provider_config (provider_config_cell x) = some x
  held_provider_config _ = none

  abbrev pub provider_config_slot : Slot (Object L) (ProviderConfigStruct L)
  provider_config_slot = record {
    hold = provider_config_cell;
    held = held_provider_config;
    zero_value = record {
      type_meta = zero_type_meta;
      metadata = L.zero_meta;
      spec = zero_provider_config_spec;
      status = zero_provider_config_status;
    };
  }

  pub provider_config_slot-IsSlot : IsSlot provider_config_slot
  provider_config_slot-IsSlot = record { at = λ x. refl }

  abbrev held_provider_configs : Object L → Option (List (ProviderConfigStruct L))
  held_provider_configs (provider_configs_cell x) = some x
  held_provider_configs _ = none

  abbrev pub provider_configs_slot : Slot (Object L) (List (ProviderConfigStruct L))
  provider_configs_slot = record {
    hold = provider_configs_cell;
    held = held_provider_configs;
    zero_value = [];
  }

  pub provider_configs_slot-IsSlot : IsSlot provider_configs_slot
  provider_configs_slot-IsSlot = record { at = λ x. refl }

  abbrev held_provider_config_list : Object L → Option (ProviderConfigListStruct L)
  held_provider_config_list (provider_config_list_cell x) = some x
  held_provider_config_list _ = none

  abbrev pub provider_config_list_slot : Slot (Object L) (ProviderConfigListStruct L)
  provider_config_list_slot = record {
    hold = provider_config_list_cell;
    held = held_provider_config_list;
    zero_value = record { type_meta = zero_type_meta; list_meta = L.zero_list_meta; items = none };
  }

  pub provider_config_list_slot-IsSlot : IsSlot provider_config_list_slot
  provider_config_list_slot-IsSlot = record { at = λ x. refl }
