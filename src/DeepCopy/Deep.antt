-- ===== src/DeepCopy/Deep.antt =====
-- The `DeepCopyInto` of each struct copies deeply.
use obs_operator.Base.{ℕ, Option, none, some, List, [], ◌∷◌}
use obs_operator.DeepCopy.Memory.{Heap, Run, Slot, renew, unless_nil, each}
use obs_operator.DeepCopy.Compose.{
  Reading, Extends-refl, IsMonotone, IsDeep, Done, Done-pure, Done-bind, Done-deep, carry,
}
use obs_operator.DeepCopy.Parts.{
  Nullable, Behind, Plain-IsMonotone, Plain-IsDeep, Nullable-IsMonotone, Each-IsMonotone,
  Behind-IsMonotone, each-IsDeep, unless_nil-IsDeep,
}
use obs_operator.DeepCopy.Cells.{IsSlot, renew-IsDeep}
use obs_operator.DeepCopy.Structs.{Foreign}
use obs_operator.DeepCopy.Slots.{
  tags_slot, tags_slot-IsSlot, logging_slot, logging_slot-IsSlot, encryption_slot,
  encryption_slot-IsSlot, time_slot, conditions_slot, conditions_slot-IsSlot, buckets_slot,
  buckets_slot-IsSlot, provider_configs_slot, provider_configs_slot-IsSlot,
}
use obs_operator.DeepCopy.Copy.{
  Apimachinery, bucket_spec_deep_copy_into, bucket_status_deep_copy_into,
  provider_config_status_deep_copy_into, bucket_deep_copy_into, provider_config_deep_copy_into,
  bucket_list_deep_copy_into, provider_config_list_deep_copy_into,
}
use obs_operator.DeepCopy.Readings.{
  ForeignReadings, IsApimachinery, TagsRead-IsMonotone, Slice, Slice-IsMonotone, BucketSpecReads,
  BucketStatusReads, ProviderConfigStatusReads, BucketReads, ProviderConfigReads, BucketListReads,
  ProviderConfigListReads,
}
use obs_operator.DeepCopy.Monotone.{
  BucketSpecReads-IsMonotone, BucketStatusReads-IsMonotone, ProviderConfigStatusReads-IsMonotone,
  BucketReads-IsMonotone, ProviderConfigReads-IsMonotone,
}
use obs_operator.DeepCopy.Entries.{copy_entries-IsDeep}

slice-IsDeep :
    {O A V : Type 0} {slot : Slot O (List A)} {R : Reading O A V} {copy : A → Run O A}
    → IsSlot slot
    → IsMonotone R
    → IsDeep R copy
    → IsDeep (Slice slot R) (unless_nil (renew slot (each copy)))
unfolding unless_nil
slice-IsDeep {O} {A} {V} {slot} {R} {copy} law mono deep = record { at = go }
  where
    go :
        (h : Heap O) (a : Option ℕ) (v : List V)
        → Slice slot R 0 h a v
        → Done h h (unless_nil (renew slot (each copy)) a) (λ b k. Slice slot R h.next k b v)
    go h none [] r = Done-pure h h none (Extends-refl h) tt
    go h none (v ∷ vs) r = absurd r
    go h (some a) vs r =
        Done-bind
          ((renew-IsDeep slot law (Each-IsMonotone mono) (each-IsDeep mono deep)).at h a vs r)
          λ b k e p. Done-pure h k (some b) e p

pub pointer-IsDeep :
    {O X V : Type 0} {slot : Slot O X} {R : Reading O X V} {into : X → Run O X}
    → IsSlot slot
    → IsMonotone R
    → IsDeep R into
    → IsDeep (Nullable (Behind slot R)) (unless_nil (renew slot into))
pointer-IsDeep {O} {X} {V} {slot} law mono deep =
    unless_nil-IsDeep (renew-IsDeep slot law mono deep)

pointer_mono :
    {O X V : Type 0} (slot : Slot O X) {R : Reading O X V}
    → IsMonotone R
    → IsMonotone (Nullable (Behind slot R))
pointer_mono slot mono = Nullable-IsMonotone (Behind-IsMonotone mono slot)

module _ {L : Foreign} {F : ForeignReadings L} {M : Apimachinery L} (law : IsApimachinery F M) where
  pub bucket_spec_deep_copy_into-IsDeep :
      IsDeep (BucketSpecReads {L = L}) (bucket_spec_deep_copy_into M)
  unfolding bucket_spec_deep_copy_into
  bucket_spec_deep_copy_into-IsDeep = record {
    at = λ h m v r.
        Done-bind
          ((pointer-IsDeep tags_slot-IsSlot TagsRead-IsMonotone copy_entries-IsDeep).at h m.tags
            v.tags r.tags)
          λ t k e p.
            Done-bind
              (Done-deep (pointer_mono logging_slot Plain-IsMonotone)
                (pointer-IsDeep logging_slot-IsSlot Plain-IsMonotone Plain-IsDeep) e r.logging)
              λ g l f (i, q).
                Done-bind
                  (Done-deep (pointer_mono encryption_slot Plain-IsMonotone)
                    (pointer-IsDeep encryption_slot-IsSlot Plain-IsMonotone Plain-IsDeep) f
                    r.server_side_encryption)
                  λ s n d (j, u). Done-pure h n _ d (record {
                    provider_config_ref = r.provider_config_ref;
                    storage_class = r.storage_class;
                    acl = r.acl;
                    versioning = r.versioning;
                    parallel_fs = r.parallel_fs;
                    enterprise_project_id = r.enterprise_project_id;
                    tags =
                        carry (pointer_mono tags_slot TagsRead-IsMonotone) h.next l n t v.tags j (
                          carry (pointer_mono tags_slot TagsRead-IsMonotone) h.next k l t v.tags i
                            p);
                    force_destroy = r.force_destroy;
                    logging =
                        carry (pointer_mono logging_slot Plain-IsMonotone) h.next l n g v.logging j
                          q;
                    server_side_encryption = u;
                  });
  }

  pub bucket_status_deep_copy_into-IsDeep :
      IsDeep (BucketStatusReads {L = L}) (bucket_status_deep_copy_into M)
  unfolding bucket_status_deep_copy_into
  bucket_status_deep_copy_into-IsDeep = record {
    at = λ h m v r.
        Done-bind
          ((unless_nil-IsDeep law.time_deep).at h m.last_sync_time v.last_sync_time
            r.last_sync_time)
          λ t k e p.
            Done-bind
              (Done-deep (Slice-IsMonotone conditions_slot Plain-IsMonotone)
                (slice-IsDeep conditions_slot-IsSlot Plain-IsMonotone law.condition_deep) e
                r.conditions)
              λ c l f (i, q). Done-pure h l _ f (record {
                observed_generation = r.observed_generation;
                region = r.region;
                bucket_domain_name = r.bucket_domain_name;
                bucket_version = r.bucket_version;
                last_sync_time =
                    carry (pointer_mono time_slot Plain-IsMonotone) h.next k l t v.last_sync_time i
                      p;
                conditions = q;
              });
  }

  pub provider_config_status_deep_copy_into-IsDeep :
      IsDeep (ProviderConfigStatusReads {L = L}) (provider_config_status_deep_copy_into M)
  unfolding provider_config_status_deep_copy_into
  provider_config_status_deep_copy_into-IsDeep = record {
    at = λ h m v r.
        Done-bind
          ((unless_nil-IsDeep law.time_deep).at h m.last_validation_time v.last_validation_time
            r.last_validation_time)
          λ t k e p.
            Done-bind
              (Done-deep (Slice-IsMonotone conditions_slot Plain-IsMonotone)
                (slice-IsDeep conditions_slot-IsSlot Plain-IsMonotone law.condition_deep) e
                r.conditions)
              λ c l f (i, q). Done-pure h l _ f (record {
                observed_generation = r.observed_generation;
                last_validation_time =
                    carry (pointer_mono time_slot Plain-IsMonotone) h.next k l t
                      v.last_validation_time i p;
                observed_provider_revision = r.observed_provider_revision;
                conditions = q;
              });
  }

  pub bucket_deep_copy_into-IsDeep : IsDeep (BucketReads F) (bucket_deep_copy_into M)
  unfolding bucket_deep_copy_into
  bucket_deep_copy_into-IsDeep = record {
    at = λ h m v r.
        Done-bind (law.meta_deep.at h m.metadata v.object.metadata r.metadata) λ d k e p.
          Done-bind
            (Done-deep BucketSpecReads-IsMonotone bucket_spec_deep_copy_into-IsDeep e r.spec)
            λ s l f (i, q).
              Done-bind
                (Done-deep BucketStatusReads-IsMonotone bucket_status_deep_copy_into-IsDeep f
                  r.status)
                λ t n g (j, u). Done-pure h n _ g (record {
                  type_meta = r.type_meta;
                  metadata =
                      carry law.meta_monotone h.next l n d v.object.metadata j
                        (carry law.meta_monotone h.next k l d v.object.metadata i p);
                  spec = carry BucketSpecReads-IsMonotone h.next l n s v.object.spec j q;
                  status = u;
                });
  }

  pub provider_config_deep_copy_into-IsDeep :
      IsDeep (ProviderConfigReads F) (provider_config_deep_copy_into M)
  unfolding provider_config_deep_copy_into
  provider_config_deep_copy_into-IsDeep = record {
    at = λ h m v r.
        Done-bind (law.meta_deep.at h m.metadata v.object.metadata r.metadata) λ d k e p.
          Done-bind
            (Done-deep ProviderConfigStatusReads-IsMonotone
              provider_config_status_deep_copy_into-IsDeep e r.status)
            λ t l f (i, q). Done-pure h l _ f (record {
              type_meta = r.type_meta;
              metadata = carry law.meta_monotone h.next k l d v.object.metadata i p;
              spec = r.spec;
              status = q;
            });
  }

  pub bucket_list_deep_copy_into-IsDeep : IsDeep (BucketListReads F) (bucket_list_deep_copy_into M)
  unfolding bucket_list_deep_copy_into
  bucket_list_deep_copy_into-IsDeep = record {
    at = λ h m v r.
        Done-bind (law.list_meta_deep.at h m.list_meta v.list_meta r.list_meta) λ d k e p.
          Done-bind
            (Done-deep (Slice-IsMonotone buckets_slot (BucketReads-IsMonotone law))
              (slice-IsDeep buckets_slot-IsSlot (BucketReads-IsMonotone law)
                bucket_deep_copy_into-IsDeep)
              e r.items)
            λ c l f (i, q). Done-pure h l _ f (record {
              type_meta = r.type_meta;
              list_meta = carry law.list_meta_monotone h.next k l d v.list_meta i p;
              items = q;
            });
  }

  pub provider_config_list_deep_copy_into-IsDeep :
      IsDeep (ProviderConfigListReads F) (provider_config_list_deep_copy_into M)
  unfolding provider_config_list_deep_copy_into
  provider_config_list_deep_copy_into-IsDeep = record {
    at = λ h m v r.
        Done-bind (law.list_meta_deep.at h m.list_meta v.list_meta r.list_meta) λ d k e p.
          Done-bind
            (Done-deep (Slice-IsMonotone provider_configs_slot (ProviderConfigReads-IsMonotone law))
              (slice-IsDeep provider_configs_slot-IsSlot (ProviderConfigReads-IsMonotone law)
                provider_config_deep_copy_into-IsDeep)
              e r.items)
            λ c l f (i, q). Done-pure h l _ f (record {
              type_meta = r.type_meta;
              list_meta = carry law.list_meta_monotone h.next k l d v.list_meta i p;
              items = q;
            });
  }
