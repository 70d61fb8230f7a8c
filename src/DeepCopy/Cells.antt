-- ===== src/DeepCopy/Cells.antt =====
-- Deep copies into a new cell: `out := new(X)`, filled from what stands behind a pointer.
use obs_operator.Base.{ℕ, suc, ◌≤◌, ◌<◌, ◌≡◌, refl, sym, ap, ◌∙◌, nat_eq, some, arith}
use mathlib.Core.Path.{subst}
use obs_operator.DeepCopy.Memory.{Heap, Run, Slot, pure, ◌>>◌, written, load, new, put, renew}
use obs_operator.DeepCopy.Compose.{
  Reading, Extends, IsMonotone, IsDeep, Done, Done-pure, Done-bind, Done-since, carry,
}
use obs_operator.DeepCopy.Parts.{Behind}

-- The slot gives back what it holds.
pub record IsSlot {O X : Type 0} (slot : Slot O X) : Type 0 where
  pub at : (x : X) → slot.held (slot.hold x) ≡ some x

module _ {O X : Type 0} (slot : Slot O X) where
  pub Done-load :
      IsSlot slot
      → {h k : Heap O} {a : ℕ} {x : X} → Extends h k
      → k.cell a ≡ some (slot.hold x)
      → Done h k (load slot a) (λ y l. (y ≡ x) × (l ≡ k))
  unfolding load
  Done-load law {h} {k} {a} {x} e s = record {
    value = x;
    heap = k;
    returned = rw (s, law.at x) refl;
    keeps = e;
    holds = (refl, refl);
  }

  pub Done-new :
      (h : Heap O)
      → Done h h (new slot) (λ a k.
        (a ≡ h.next) × (k.next ≡ suc h.next) × (k.cell a ≡ some (slot.hold slot.zero_value)))
  unfolding new
  Done-new h = record {
    value = h.next;
    heap = record { next = suc h.next; cell = written h.cell h.next (slot.hold slot.zero_value) };
    returned = refl;
    keeps = record { grows = omega arith; same = λ a i. ground arith };
    holds = (refl, refl, ground arith);
  }

  -- A cell that is not older than `h` is filled.
  pub Done-put :
      {h k : Heap O} {a : ℕ} {o : O} (x : X)
      → Extends h k
      → h.next ≤ a
      → k.cell a ≡ some o
      → Done h k (put slot a x) (λ _ l.
        (l.next ≡ k.next)
        × (l.cell a ≡ some (slot.hold x))
        × ((b : ℕ) → a < b → l.cell b ≡ k.cell b))
  unfolding put
  Done-put {h} {k} {a} x e i s = record {
    value = tt;
    heap = record k { cell = written k.cell a (slot.hold x) };
    returned = rw s refl;
    keeps = record { grows = e.grows; same = λ b j. ground (arith, e.same b j) };
    holds = (refl, ground arith, λ b j. ground arith);
  }

  module _ {V : Type 0} {R : Reading O X V} (law : IsSlot slot) (mono : IsMonotone R) where
    pub renew-IsDeep :
        {into : X → Run O X} → IsDeep R into → IsDeep (Behind slot R) (renew slot into)
    unfolding renew
    renew-IsDeep {into} deep = record { at = go }
      where
        -- The last steps: `y` is put into the cell `out`, which was made before `y` was copied.
        fill :
            (h l m : Heap O) (out : ℕ) (y : X) (v : V)
            → h.next ≡ out
            → l.next ≡ suc out
            → l.cell out ≡ some (slot.hold slot.zero_value)
            → Extends h m
            → Extends l m
            → R l.next m y v
            → Done h m (put slot out y >> pure out) (λ a n. Behind slot R h.next n a v)
        fill h l m out y v o n z e f r =
            Done-bind (Done-put y e (omega (arith, o)) (f.same out (omega (arith, n)) ∙ z))
              λ _ p g (same_next, stands, others). Done-pure h p out g (record {
                object = y;
                seen = record {
                  from = omega (arith, o);
                  below = let i = f.grows in omega (arith, n, i, same_next);
                  stands = stands;
                };
                reads =
                    mono.at l.next h.next m p y v
                      (λ a x s. record {
                        from = let i = s.from in omega (arith, o, n, i);
                        below = let i = s.below in omega (arith, same_next, i);
                        stands = others a (let i = s.from in omega (arith, n, i)) ∙ s.stands;
                      })
                      r;
              })

        go :
            (h : Heap O) (a : ℕ) (v : V)
            → Behind slot R 0 h a v
            → Done h h (renew slot into a) (λ b k. Behind slot R h.next k b v)
        go h a v b = Done-bind (Done-new h) λ out k e (o, n, z).
            Done-bind (Done-load law e (e.same a b.seen.below ∙ b.seen.stands)) λ x l e' (ex, el).
              Done-bind
                (Done-since e' (
                  deep.at l x v
                    (subst (λ c. R 0 l c v) (sym ex) (carry mono 0 h l b.object v e' b.reads))))
                λ y m e'' (f, r).
                  fill h l m out y v (sym o) (ap (λ j. j.next) el ∙ n ∙ ap suc (sym o))
                    (ap (λ j. j.cell out) el ∙ z) e'' f r
