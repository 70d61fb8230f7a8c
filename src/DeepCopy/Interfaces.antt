-- ===== src/DeepCopy/Interfaces.antt =====
-- What `DeepCopyObject` returns.
use obs_operator.Base.{ℕ, ◌≡◌, Option}
use obs_operator.DeepCopy.Memory.{Heap}
use obs_operator.DeepCopy.Structs.{Foreign, Object}
use obs_operator.DeepCopy.Readings.{ForeignReadings}
use obs_operator.DeepCopy.Objects.{StructType, StructValue, RuntimeObject, as_object}
use obs_operator.DeepCopy.Whole.{PointerReads}

-- The interface is nil for a nil pointer, and else holds the type `t` and a pointer that reads as
-- `v`: it never holds a nil pointer.
pub record ObjectReads {L : Foreign} (F : ForeignReadings L) (t : StructType) (lo : ℕ)
    (h : Heap (Object L)) (o : RuntimeObject) (v : Option (StructValue F t)) : Type 0 where
  pub pointer : Option ℕ
  pub holds : o ≡ as_object t pointer
  pub reads : PointerReads F t lo h pointer v
