-- ===== src/Tests/Copies.antt =====
-- The properties of the deep copies, on the heap of `Sample.Copies`.
use obs_operator.Base.{some}
use obs_operator.DeepCopy.Compose.{Done}
use obs_operator.DeepCopy.Objects.{bucket_type, deep_copy}
use obs_operator.DeepCopy.Whole.{PointerReads, deep_copy-PointerReads}
use obs_operator.DeepCopy.Aliasing.{copy-WritesBelow}
use obs_operator.Sample.Copies.{
  apimachinery, readings, apimachinery-IsApimachinery, heap, value, in_memory-PointerReads,
  overwritten, overwritten-WritesBelow,
}

abbrev copy_run :
    Done heap heap
      (deep_copy apimachinery bucket_type (some 3))
      (λ c k. PointerReads readings bucket_type 4 k c (some value))
copy_run =
    deep_copy-PointerReads apimachinery-IsApimachinery bucket_type heap (some 3) (some value)
      in_memory-PointerReads

deep_copy-PointerReads_example :
    Done heap heap
      (deep_copy apimachinery bucket_type (some 3))
      (λ c k. PointerReads readings bucket_type 4 k c (some value))
deep_copy-PointerReads_example =
    deep_copy-PointerReads apimachinery-IsApimachinery bucket_type heap (some 3) (some value)
      in_memory-PointerReads

copy-WritesBelow_example :
    PointerReads readings bucket_type 0 (overwritten 0 copy_run.heap) copy_run.value (some value)
copy-WritesBelow_example =
    copy-WritesBelow apimachinery-IsApimachinery bucket_type heap (some 3) (some value)
      in_memory-PointerReads copy_run.value copy_run.heap (overwritten 0 copy_run.heap)
      copy_run.returned (overwritten-WritesBelow copy_run.heap)
