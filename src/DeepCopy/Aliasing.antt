-- ===== src/DeepCopy/Aliasing.antt =====
-- What writes after a `DeepCopy` do to the copy.
use obs_operator.Base.{ℕ, ◌≤◌, ◌<◌, ◌≡◌, sym, ◌∙◌, Option, some, arith}
use mathlib.Core.Path.{subst}
use mathlib.Core.Option.{some-injective}
use obs_operator.DeepCopy.Memory.{Heap}
use obs_operator.DeepCopy.Compose.{Extends, IsMonotone, Done}
use obs_operator.DeepCopy.Parts.{Nullable-IsMonotone, Behind-IsMonotone}
use obs_operator.DeepCopy.Structs.{Foreign, Object}
use obs_operator.DeepCopy.Copy.{Apimachinery}
use obs_operator.DeepCopy.Readings.{ForeignReadings, IsApimachinery}
use obs_operator.DeepCopy.Objects.{StructType, StructValue, struct_slot, deep_copy}
use obs_operator.DeepCopy.Whole.{PointerReads, StructReads-IsMonotone, deep_copy-PointerReads}

-- What has happened to the heap between `k` and `l`: cells older than `n` may have been written,
-- and new cells made.
pub record WritesBelow {O : Type 0} (n : ℕ) (k l : Heap O) : Type 0 where
  pub grows : k.next ≤ l.next
  pub same : (a : ℕ) → n ≤ a → a < k.next → l.cell a ≡ k.cell a

module _ {L : Foreign} {F : ForeignReadings L} {M : Apimachinery L} (law : IsApimachinery F M)
    (t : StructType) where
  PointerReads-IsMonotone : IsMonotone (PointerReads F t)
  PointerReads-IsMonotone =
      Nullable-IsMonotone (Behind-IsMonotone (StructReads-IsMonotone law t) (struct_slot t))

  copied :
      (h : Heap (Object L)) (p : Option ℕ) (v : Option (StructValue F t))
      → PointerReads F t 0 h p v
      → (c : Option ℕ) (k : Heap (Object L)) → deep_copy M t p h ≡ some (c, k)
      → Extends h k × PointerReads F t h.next k c v
  copied h p v r c k e = (
    subst (λ x. Extends h x.1) same d.keeps,
    subst (λ x. PointerReads F t h.next x.1 x.0 v) same d.holds,
  )
    where
      d : Done h h (deep_copy M t p) (λ b l. PointerReads F t h.next l b v)
      d = deep_copy-PointerReads law t h p v r

      same : ◌≡◌ {A = Option ℕ × Heap (Object L)} (d.value, d.heap) (c, k)
      same = some-injective _ _ (sym d.returned ∙ e)

-- After `c = p.DeepCopy()`, whatever is written through the original, or into anything else that is
-- older than the copy, the copy reads as the original did when it was copied.
pub copy-WritesBelow :
    {L : Foreign} {F : ForeignReadings L} {M : Apimachinery L}
    → IsApimachinery F M
    → (t : StructType) (h : Heap (Object L)) (p : Option ℕ) (v : Option (StructValue F t))
    → PointerReads F t 0 h p v
    → (c : Option ℕ) (k l : Heap (Object L)) → deep_copy M t p h ≡ some (c, k)
    → WritesBelow h.next k l
    → PointerReads F t 0 l c v
copy-WritesBelow law t h p v r c k l e w =
    (PointerReads-IsMonotone law t).at h.next 0 k l c v
      (λ a o s. record {
        from = omega arith;
        below = let i = w.grows in let j = s.below in omega (arith, i, j);
        stands = w.same a s.from s.below ∙ s.stands;
      })
      (copied law t h p v r c k e).1
