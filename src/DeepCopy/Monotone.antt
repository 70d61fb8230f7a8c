-- ===== src/DeepCopy/Monotone.antt =====
-- What is read of a struct stays so where all of it is still seen.
use obs_operator.DeepCopy.Compose.{IsMonotone}
use obs_operator.DeepCopy.Parts.{Plain-IsMonotone, Nullable-IsMonotone, Behind-IsMonotone}
use obs_operator.DeepCopy.Structs.{Foreign}
use obs_operator.DeepCopy.Slots.{
  tags_slot, logging_slot, encryption_slot, time_slot, conditions_slot, buckets_slot,
  provider_configs_slot,
}
use obs_operator.DeepCopy.Copy.{Apimachinery}
use obs_operator.DeepCopy.Readings.{
  ForeignReadings, IsApimachinery, TagsRead-IsMonotone, Slice-IsMonotone, BucketSpecReads,
  BucketStatusReads, ProviderConfigStatusReads, BucketReads, ProviderConfigReads, BucketListReads,
  ProviderConfigListReads,
}

module _ {L : Foreign} where
  pub BucketSpecReads-IsMonotone : IsMonotone (BucketSpecReads {L = L})
  BucketSpecReads-IsMonotone = record {
    at = λ lo lo' h k m v s r. record {
      provider_config_ref = r.provider_config_ref;
      storage_class = r.storage_class;
      acl = r.acl;
      versioning = r.versioning;
      parallel_fs = r.parallel_fs;
      enterprise_project_id = r.enterprise_project_id;
      force_destroy = r.force_destroy;
      tags =
          (Nullable-IsMonotone (Behind-IsMonotone TagsRead-IsMonotone tags_slot)).at lo lo' h k
            m.tags v.tags s r.tags;
      logging =
          (Nullable-IsMonotone (Behind-IsMonotone Plain-IsMonotone logging_slot)).at lo lo' h k
            m.logging v.logging s r.logging;
      server_side_encryption =
          (Nullable-IsMonotone (Behind-IsMonotone Plain-IsMonotone encryption_slot)).at lo lo' h k
            m.server_side_encryption v.server_side_encryption s r.server_side_encryption;
    };
  }

  pub BucketStatusReads-IsMonotone : IsMonotone (BucketStatusReads {L = L})
  BucketStatusReads-IsMonotone = record {
    at = λ lo lo' h k m v s r. record {
      observed_generation = r.observed_generation;
      region = r.region;
      bucket_domain_name = r.bucket_domain_name;
      bucket_version = r.bucket_version;
      last_sync_time =
          (Nullable-IsMonotone (Behind-IsMonotone Plain-IsMonotone time_slot)).at lo lo' h k
            m.last_sync_time v.last_sync_time s r.last_sync_time;
      conditions =
          (Slice-IsMonotone conditions_slot Plain-IsMonotone).at lo lo' h k m.conditions
            v.conditions s r.conditions;
    };
  }

  pub ProviderConfigStatusReads-IsMonotone : IsMonotone (ProviderConfigStatusReads {L = L})
  ProviderConfigStatusReads-IsMonotone = record {
    at = λ lo lo' h k m v s r. record {
      observed_generation = r.observed_generation;
      observed_provider_revision = r.observed_provider_revision;
      last_validation_time =
          (Nullable-IsMonotone (Behind-IsMonotone Plain-IsMonotone time_slot)).at lo lo' h k
            m.last_validation_time v.last_validation_time s r.last_validation_time;
      conditions =
          (Slice-IsMonotone conditions_slot Plain-IsMonotone).at lo lo' h k m.conditions
            v.conditions s r.conditions;
    };
  }

module _ {L : Foreign} {F : ForeignReadings L} {M : Apimachinery L} (law : IsApimachinery F M) where
  pub BucketReads-IsMonotone : IsMonotone (BucketReads F)
  BucketReads-IsMonotone = record {
    at = λ lo lo' h k m v s r. record {
      type_meta = r.type_meta;
      metadata = (law.meta_monotone).at lo lo' h k m.metadata v.object.metadata s r.metadata;
      spec = (BucketSpecReads-IsMonotone).at lo lo' h k m.spec v.object.spec s r.spec;
      status = (BucketStatusReads-IsMonotone).at lo lo' h k m.status v.object.status s r.status;
    };
  }

  pub ProviderConfigReads-IsMonotone : IsMonotone (ProviderConfigReads F)
  ProviderConfigReads-IsMonotone = record {
    at = λ lo lo' h k m v s r. record {
      type_meta = r.type_meta;
      spec = r.spec;
      metadata = (law.meta_monotone).at lo lo' h k m.metadata v.object.metadata s r.metadata;
      status =
          (ProviderConfigStatusReads-IsMonotone).at lo lo' h k m.status v.object.status s r.status;
    };
  }

  pub BucketListReads-IsMonotone : IsMonotone (BucketListReads F)
  BucketListReads-IsMonotone = record {
    at = λ lo lo' h k m v s r. record {
      type_meta = r.type_meta;
      list_meta = (law.list_meta_monotone).at lo lo' h k m.list_meta v.list_meta s r.list_meta;
      items =
          (Slice-IsMonotone buckets_slot BucketReads-IsMonotone).at lo lo' h k m.items v.items s
            r.items;
    };
  }

  pub ProviderConfigListReads-IsMonotone : IsMonotone (ProviderConfigListReads F)
  ProviderConfigListReads-IsMonotone = record {
    at = λ lo lo' h k m v s r. record {
      type_meta = r.type_meta;
      list_meta = (law.list_meta_monotone).at lo lo' h k m.list_meta v.list_meta s r.list_meta;
      items =
          (Slice-IsMonotone provider_configs_slot ProviderConfigReads-IsMonotone).at lo lo' h k
            m.items v.items s r.items;
    };
  }
