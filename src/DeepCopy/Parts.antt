-- ===== src/DeepCopy/Parts.antt =====
-- Deep copies through nil checks, loops over a slice, and new cells.
use obs_operator.Base.{ℕ, ◌≡◌, nat_eq, Option, none, some, List, [], ◌∷◌}
use obs_operator.DeepCopy.Memory.{Heap, Run, Slot, pure, unless_nil, each}
use obs_operator.DeepCopy.Compose.{
  Reading, Extends-refl, Seen, Shows, IsMonotone, IsDeep, Done, Done-pure, Done-bind, Done-within,
  carry,
}

module _ {O : Type 0} where
  -- A value without references reads as itself.
  abbrev pub Plain : {A : Type 0} → Reading O A A
  Plain lo h a v = a ≡ v

  abbrev pub Nullable : {A V : Type 0} → Reading O A V → Reading O (Option A) (Option V)
  Nullable R lo h none none = Unit
  Nullable R lo h (some a) (some v) = R lo h a v
  Nullable R lo h _ _ = ⊥

  abbrev pub Each : {A V : Type 0} → Reading O A V → Reading O (List A) (List V)
  Each R lo h [] [] = Unit
  Each R lo h (a ∷ rest) (v ∷ vs) = R lo h a v × Each R lo h rest vs
  Each R lo h _ _ = ⊥

  -- The cell at an address holds a value that reads as `v`.
  pub record Behind {X V : Type 0} (slot : Slot O X) (R : Reading O X V) (lo : ℕ) (h : Heap O)
      (a : ℕ) (v : V) : Type 0 where
    pub object : X
    pub seen : Seen lo h a (slot.hold object)
    pub reads : R lo h object v

  pub Plain-IsMonotone : {A : Type 0} → IsMonotone (Plain {A = A})
  Plain-IsMonotone = record { at = λ lo lo' h k a v s e. e }

  pub Plain-IsDeep : {A : Type 0} → IsDeep (Plain {A = A}) pure
  Plain-IsDeep = record { at = λ h a v e. Done-pure h h a (Extends-refl h) e }

  module _ {A V : Type 0} {R : Reading O A V} (mono : IsMonotone R) where
    pub Nullable-IsMonotone : IsMonotone (Nullable R)
    Nullable-IsMonotone = record { at = go }
      where
        go :
            (lo lo' : ℕ) (h k : Heap O) (a : Option A) (v : Option V)
            → Shows lo h lo' k
            → Nullable R lo h a v
            → Nullable R lo' k a v
        go lo lo' h k none none s r = tt
        go lo lo' h k (some a) (some v) s r = mono.at lo lo' h k a v s r
        go lo lo' h k (some a) none s r = r
        go lo lo' h k none (some v) s r = r

    pub Each-IsMonotone : IsMonotone (Each R)
    Each-IsMonotone = record { at = go }
      where
        go :
            (lo lo' : ℕ) (h k : Heap O) (a : List A) (v : List V)
            → Shows lo h lo' k
            → Each R lo h a v
            → Each R lo' k a v
        go lo lo' h k [] [] s r = tt
        go lo lo' h k (a ∷ rest) (v ∷ vs) s (r, rs) =
            (mono.at lo lo' h k a v s r, go lo lo' h k rest vs s rs)
        go lo lo' h k (a ∷ rest) [] s r = r
        go lo lo' h k [] (v ∷ vs) s r = r

    pub Behind-IsMonotone : (slot : Slot O A) → IsMonotone (Behind slot R)
    Behind-IsMonotone slot = record {
      at = λ lo lo' h k a v s b. record {
        object = b.object;
        seen = s a (slot.hold b.object) b.seen;
        reads = mono.at lo lo' h k b.object v s b.reads;
      };
    }

    pub each-IsDeep : {copy : A → Run O A} → IsDeep R copy → IsDeep (Each R) (each copy)
    unfolding each
    each-IsDeep {copy} deep = record { at = go }
      where
        go :
            (h : Heap O) (a : List A) (v : List V)
            → Each R 0 h a v
            → Done h h (each copy a) (λ b l. Each R h.next l b v)
        go h [] [] r = Done-pure h h [] (Extends-refl h) tt
        go h (a ∷ rest) (v ∷ vs) (r, rs) = Done-bind (deep.at h a v r) λ b l f p.
            Done-bind
              (Done-within Each-IsMonotone f
                (go l rest vs (carry Each-IsMonotone 0 h l rest vs f rs)))
              λ bs n g (i, q). Done-pure h n (b ∷ bs) g (carry mono h.next l n b v i p, q)
        go h (a ∷ rest) [] r = absurd r
        go h [] (v ∷ vs) r = absurd r

  pub unless_nil-IsDeep :
      {V : Type 0} {R : Reading O ℕ V} {copy : ℕ → Run O ℕ}
      → IsDeep R copy
      → IsDeep (Nullable R) (unless_nil copy)
  unfolding unless_nil
  unless_nil-IsDeep {V} {R} {copy} deep = record { at = go }
    where
      go :
          (h : Heap O) (a : Option ℕ) (v : Option V)
          → Nullable R 0 h a v
          → Done h h (unless_nil copy a) (λ b k. Nullable R h.next k b v)
      go h none none r = Done-pure h h none (Extends-refl h) tt
      go h (some a) (some v) r = Done-bind (deep.at h a v r) λ b k e p. Done-pure h k (some b) e p
      go h (some a) none r = absurd r
      go h none (some v) r = absurd r
