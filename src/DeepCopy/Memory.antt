-- ===== src/DeepCopy/Memory.antt =====
-- A heap of Go objects and the functions that run on it. An address stands for a pointer, a map or
-- the array of a slice; nil is `none`. A function that reads through a dangling address faults.
use obs_operator.Base.{ℕ, suc, ◌==◌, nat_eq, Option, none, some, List, [], ◌∷◌, if◌then◌else◌}

pub record Heap (O : Type 0) : Type 0 where
  pub next : ℕ
  pub cell : ℕ → Option O

-- `none` is a fault.
abbrev pub Run : Type 0 → Type 0 → Type 0
Run O A = Heap O → Option (A × Heap O)

-- How a value of the Go type `X` stands in a cell, and the zero value of the type.
pub record Slot (O X : Type 0) : Type 0 where
  pub hold : X → O
  pub held : O → Option X
  pub zero_value : X

module _ {O : Type 0} where
  unfoldable pub pure : {A : Type 0} → A → Run O A
  pure a h = some (a, h)

  infixl 5 ◌>>=◌ ◌>>◌
  abbrev follow : {A B : Type 0} → Option (A × Heap O) → (A → Run O B) → Option (B × Heap O)
  follow none f = none
  follow (some (a, k)) f = f a k

  unfoldable pub ◌>>=◌ : {A B : Type 0} → Run O A → (A → Run O B) → Run O B
  ◌>>=◌ m f h = follow (m h) f

  abbrev pub ◌>>◌ : {A B : Type 0} → Run O A → Run O B → Run O B
  m >> n = m >>= λ _. n

  abbrev pub written : (ℕ → Option O) → ℕ → O → ℕ → Option O
  written f a o b = if b == a then some o else f b

  module _ {X : Type 0} (slot : Slot O X) where
    abbrev as_value : Option O → Option X
    as_value none = none
    as_value (some o) = slot.held o

    abbrev with_heap : Heap O → Option X → Option (X × Heap O)
    with_heap h none = none
    with_heap h (some x) = some (x, h)

    -- `*a`
    unfoldable pub load : ℕ → Run O X
    load a h = with_heap h (as_value (h.cell a))

    -- `new(X)`, and `make` of a map or of an array.
    unfoldable pub new : Run O ℕ
    new h = some (
      h.next,
      record { next = suc h.next; cell = written h.cell h.next (slot.hold slot.zero_value) },
    )

    abbrev put_over : Heap O → ℕ → X → Option O → Option (Unit {0} × Heap O)
    put_over h a x none = none
    put_over h a x (some _) = some (tt, record h { cell = written h.cell a (slot.hold x) })

    -- `*a = x`
    unfoldable pub put : ℕ → X → Run O (Unit {0})
    put a x h = put_over h a x (h.cell a)

    -- `out := new(X)`, filled by `into` from what stands at `a`.
    unfoldable pub renew : (X → Run O X) → ℕ → Run O ℕ
    renew into a = do out ← new; x ← load a; y ← into x; put out y; pure out

  -- `if in.X != nil { ... }`
  unfoldable pub unless_nil : (ℕ → Run O ℕ) → Option ℕ → Run O (Option ℕ)
  unless_nil f none = pure none
  unless_nil f (some a) = do b ← f a; pure (some b)

  -- `for i := range *in { (*in)[i].DeepCopyInto(&(*out)[i]) }`
  unfoldable pub each : {A : Type 0} → (A → Run O A) → List A → Run O (List A)
  each f [] = pure []
  each f (a ∷ rest) = do b ← f a; bs ← each f rest; pure (b ∷ bs)
