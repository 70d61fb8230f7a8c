-- ===== src/DeepCopy/Compose.antt =====
-- What it means that a function copies deeply, and how that follows for composed functions.
--
-- `Seen lo h a o` says that `o` stands in `h` at an address from `lo` on. A relation that is stated
-- by `Seen` from `lo` on speaks of nothing that is older than `lo`.
use obs_operator.Base.{ℕ, ◌≤◌, ◌<◌, ◌≡◌, refl, ◌∙◌, nat_eq, some, arith}
use obs_operator.DeepCopy.Memory.{Heap, Run, pure, ◌>>=◌}

-- What a Go value `a` reads as, from an address on.
abbrev pub Reading : Type 0 → Type 0 → Type 0 → Type 1
Reading O A V = ℕ → Heap O → A → V → Type 0

module _ {O : Type 0} where
  -- `k` is `h` with new cells: what was there is unchanged.
  pub record Extends (h k : Heap O) : Type 0 where
    pub grows : h.next ≤ k.next
    pub same : (a : ℕ) → a < h.next → k.cell a ≡ h.cell a

  pub Extends-refl : (h : Heap O) → Extends h h
  Extends-refl h = record { grows = omega arith; same = λ a _. refl }

  pub Extends-trans : (h k l : Heap O) → Extends h k → Extends k l → Extends h l
  Extends-trans h k l e f = record {
    grows = let i = e.grows in let j = f.grows in omega arith;
    same = λ a i. f.same a (let j = e.grows in omega arith) ∙ e.same a i;
  }

  -- At `a` from `lo` on stands `o`.
  pub record Seen (lo : ℕ) (h : Heap O) (a : ℕ) (o : O) : Type 0 where
    pub from : lo ≤ a
    pub below : a < h.next
    pub stands : h.cell a ≡ some o

  -- All that is seen of one heap is seen of the other.
  abbrev pub Shows : ℕ → Heap O → ℕ → Heap O → Type 0
  Shows lo h lo' k = (a : ℕ) (o : O) → Seen lo h a o → Seen lo' k a o

  pub extended : (lo lo' : ℕ) (h k : Heap O) → lo' ≤ lo → Extends h k → Shows lo h lo' k
  extended lo lo' h k i e a o s = record {
    from = let j = s.from in omega arith;
    below = let j = e.grows in let l = s.below in omega arith;
    stands = e.same a s.below ∙ s.stands;
  }

  pub record IsMonotone {A V : Type 0} (R : Reading O A V) : Type 0 where
    pub at :
        (lo lo' : ℕ) (h k : Heap O) (a : A) (v : V) → Shows lo h lo' k → R lo h a v → R lo' k a v

  -- From the heap `k`, a function returns, touches nothing of the heap `h`, and leaves `P`.
  pub record Done {A : Type 0} (h k : Heap O) (m : Run O A) (P : A → Heap O → Type 0) : Type 0 where
    pub value : A
    pub heap : Heap O
    pub returned : m k ≡ some (value, heap)
    pub keeps : Extends h heap
    pub holds : P value heap

  -- The copy of `a` reads as `a` does, by new cells alone.
  pub record IsDeep {A V : Type 0} (R : Reading O A V) (copy : A → Run O A) : Type 0 where
    pub at : (h : Heap O) (a : A) (v : V) → R 0 h a v → Done h h (copy a) (λ b k. R h.next k b v)

  module _ {A : Type 0} where
    pub Done-pure :
        (h k : Heap O) (a : A) {P : A → Heap O → Type 0} → Extends h k → P a k → Done h k (pure a) P
    unfolding pure
    Done-pure h k a e p = record { value = a; heap = k; returned = refl; keeps = e; holds = p }

    -- A run from `k` on, seen from before.
    pub Done-since :
        {h k : Heap O} {m : Run O A} {P : A → Heap O → Type 0}
        → Extends h k
        → Done k k m P
        → Done h k m (λ b l. Extends k l × P b l)
    Done-since {h} {k} e d = record {
      value = d.value;
      heap = d.heap;
      returned = d.returned;
      keeps = Extends-trans h k d.heap e d.keeps;
      holds = (d.keeps, d.holds);
    }

    pub Done-bind :
        {B : Type 0} {h k : Heap O} {m : Run O A} {f : A → Run O B} {P : A → Heap O → Type 0}
        {Q : B → Heap O → Type 0}
        → Done h k m P
        → ((a : A) (l : Heap O) → Extends h l → P a l → Done h l (f a) Q)
        → Done h k (m >>= f) Q
    unfolding ◌>>=◌
    Done-bind {B} {h} {k} {m} {f} {P} {Q} d g = record {
      value = n.value;
      heap = n.heap;
      returned = rw d.returned n.returned;
      keeps = n.keeps;
      holds = n.holds;
    }
      where
        n : Done h d.heap (f d.value) Q
        n = g d.value d.heap d.keeps d.holds

  module _ {A V : Type 0} {R : Reading O A V} (mono : IsMonotone R) where
    -- What is read stays so while the heap grows.
    pub carry : (lo : ℕ) (h k : Heap O) (a : A) (v : V) → Extends h k → R lo h a v → R lo k a v
    carry lo h k a v e r = mono.at lo lo h k a v (extended lo lo h k (omega arith) e) r

    -- A copy in the midst of others.
    pub Done-within :
        {h k : Heap O} {m : Run O A} {v : V}
        → Extends h k
        → Done k k m (λ b l. R k.next l b v)
        → Done h k m (λ b l. Extends k l × R h.next l b v)
    Done-within {h} {k} {m} {v} e d = record {
      value = d.value;
      heap = d.heap;
      returned = d.returned;
      keeps = Extends-trans h k d.heap e d.keeps;
      holds = (
        d.keeps,
        mono.at k.next h.next d.heap d.heap d.value v
            (extended k.next h.next d.heap d.heap e.grows (Extends-refl d.heap)) d.holds,
      );
    }

    pub Done-deep :
        {h k : Heap O} {copy : A → Run O A} {a : A} {v : V}
        → IsDeep R copy
        → Extends h k
        → R 0 h a v
        → Done h k (copy a) (λ b l. Extends k l × R h.next l b v)
    Done-deep {h} {k} {copy} {a} {v} deep e r = Done-within e (deep.at k a v (carry 0 h k a v e r))
