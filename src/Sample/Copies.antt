-- ===== src/Sample/Copies.antt =====
-- A heap with a Bucket, and an apimachinery for it, for the tests.
use obs_operator.Base.{
  ℕ, String, string_eq, nat_eq, ◌==◌, if◌then◌else◌, false, ◌<◌, ◌≡◌, refl, Option, none, some, [],
  ◌∷◌, arith,
}
use obs_operator.Base.Dict.{Dict, lookup}
use obs_operator.Api.{ObjectMeta}
use obs_operator.DeepCopy.Memory.{Heap, pure, renew, written}
use obs_operator.DeepCopy.Compose.{Seen}
use obs_operator.DeepCopy.Parts.{Plain, Plain-IsMonotone, Plain-IsDeep}
use obs_operator.DeepCopy.Cells.{renew-IsDeep}
use obs_operator.DeepCopy.Structs.{
  Foreign, Object, BucketStruct, tags_cell, time_cell, bucket_cell, conditions_cell,
}
use obs_operator.DeepCopy.Slots.{time_slot, time_slot-IsSlot}
use obs_operator.DeepCopy.Copy.{Apimachinery}
use obs_operator.DeepCopy.Readings.{ForeignReadings, IsApimachinery, BucketValue}
use obs_operator.DeepCopy.Objects.{bucket_type}
use obs_operator.DeepCopy.Whole.{PointerReads}
use obs_operator.DeepCopy.Aliasing.{WritesBelow}
use obs_operator.Sample.{meta}
use obs_operator.Sample.Fixtures.{bucket}

abbrev pub foreign : Foreign
foreign = record {
  Meta = ObjectMeta;
  ListMeta = String;
  Cell = Unit {0};
  zero_meta = meta "";
  zero_list_meta = "";
}

abbrev pub apimachinery : Apimachinery foreign
apimachinery = record {
  meta_deep_copy_into = pure;
  list_meta_deep_copy_into = pure;
  condition_deep_copy_into = pure;
  time_deep_copy = renew time_slot pure;
}

abbrev pub readings : ForeignReadings foreign
readings = record { ListMetaValue = String; meta = Plain; list_meta = Plain }

pub apimachinery-IsApimachinery : IsApimachinery readings apimachinery
apimachinery-IsApimachinery = record {
  meta_monotone = Plain-IsMonotone;
  meta_deep = Plain-IsDeep;
  list_meta_monotone = Plain-IsMonotone;
  list_meta_deep = Plain-IsDeep;
  condition_deep = Plain-IsDeep;
  time_deep = renew-IsDeep time_slot time_slot-IsSlot Plain-IsMonotone Plain-IsDeep;
}

abbrev tags : Dict String String
tags = ("env", "prod") ∷ ("team", "data") ∷ []

abbrev tags_again : Dict String String
tags_again = ("team", "data") ∷ ("env", "prod") ∷ []

-- What stands at 3: its tags stand at 0, a time at 1, an array without conditions at 2.
abbrev pub in_memory : BucketStruct foreign
in_memory = record {
  type_meta = record { kind = "Bucket"; api_version = "obs.wilaris.de/v1alpha1" };
  metadata = meta "data";
  spec = record {
    provider_config_ref = record { name = "otc" };
    storage_class = "";
    acl = "";
    versioning = bucket.spec.versioning;
    parallel_fs = bucket.spec.parallel_fs;
    enterprise_project_id = "";
    tags = some 0;
    force_destroy = bucket.spec.force_destroy;
    logging = none;
    server_side_encryption = none;
  };
  status = record {
    observed_generation = 0;
    region = "";
    bucket_domain_name = "";
    bucket_version = "";
    last_sync_time = some 1;
    conditions = some 2;
  };
}

abbrev cells : ℕ → Option (Object foreign)
cells a =
    if a == 0
    then some (tags_cell tags)
    else if a == 1
    then some (time_cell 5)
    else if a == 2
    then some (conditions_cell [])
    else if a == 3
    then some (bucket_cell in_memory)
    else none

abbrev pub heap : Heap (Object foreign)
heap = record { next = 4; cell = cells }

-- What it reads as, the tags in another order.
abbrev pub value : BucketValue
value = record {
  type_meta = in_memory.type_meta;
  object = record bucket {
    metadata = meta "data";
    spec = record bucket.spec { tags = some tags_again; server_side_encryption = none };
    status = record bucket.status { last_sync_time = some 5 };
  };
}

seen : {O : Type 0} (h : Heap O) (a : ℕ) (o : O) → a < h.next → h.cell a ≡ some o → Seen 0 h a o
seen h a o i e = record { from = omega arith; below = i; stands = e }

lookup_swap :
    (key j k v w : String) (d : Dict String String)
    → (j == k) ≡ false
    → lookup key ((j, v) ∷ (k, w) ∷ d) ≡ lookup key ((k, w) ∷ (j, v) ∷ d)
unfolding lookup
lookup_swap key j k v w d h = ground arith

pub in_memory-PointerReads : PointerReads readings bucket_type 0 heap (some 3) (some value)
unfolding nat_eq string_eq lookup
in_memory-PointerReads = record {
  object = in_memory;
  seen = seen heap 3 (bucket_cell in_memory) (omega arith) refl;
  reads = record {
    type_meta = refl;
    metadata = refl;
    spec = record {
      provider_config_ref = refl;
      storage_class = refl;
      acl = refl;
      versioning = refl;
      parallel_fs = refl;
      enterprise_project_id = refl;
      tags = record {
        object = tags;
        seen = seen heap 0 _ (omega arith) refl;
        reads = record { keys_once = (refl, (refl, tt)); entries = swapped };
      };
      force_destroy = refl;
      logging = tt;
      server_side_encryption = tt;
    };
    status = record {
      observed_generation = refl;
      region = refl;
      bucket_domain_name = refl;
      bucket_version = refl;
      last_sync_time = record {
        object = 5;
        seen = seen heap 1 (time_cell 5) (omega arith) refl;
        reads = refl;
      };
      conditions = record {
        object = [];
        seen = seen heap 2 (conditions_cell []) (omega arith) refl;
        reads = tt;
      };
    };
  };
}
  where
    swapped : (key : String) → lookup key tags ≡ lookup key tags_again
    swapped key = lookup_swap key "env" "team" "prod" "data" [] refl

-- The heap after a write at an address.
abbrev pub overwritten : ℕ → Heap (Object foreign) → Heap (Object foreign)
overwritten a h = record h { cell = written h.cell a (time_cell 9) }

pub overwritten-WritesBelow : (k : Heap (Object foreign)) → WritesBelow 4 k (overwritten 0 k)
overwritten-WritesBelow k = record { grows = omega arith; same = λ a i j. ground arith }
