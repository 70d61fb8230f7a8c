-- ===== src/Base/Select.antt =====
-- Lists picked by a Boolean test.
use mathlib.Core.Path.{◌≡◌, refl}
use mathlib.Core.Bool.{Bool, false, ◌&&◌, ◌||◌}
use mathlib.Core.List.{List, [], ◌∷◌, map}
use native.Mathlib.Omega.{arith}
use mathlib.Core.Logic.{◌≢◌}
use obs_operator.Base.Equality.{Eq, ◌==◌, contains, string_eq}
use obs_operator.Base.Tests.{if◌then◌else◌}

module _ {ℓ} {A : Type ℓ} where
  abbrev pub select : (A → Bool) → List A → List A
  select p [] = []
  select p (x ∷ xs) = if p x then x ∷ select p xs else select p xs

  abbrev pub any : (A → Bool) → List A → Bool
  any p [] = false
  any p (x ∷ xs) = p x || any p xs

  pub any_alike : (p q : A → Bool) → ((x : A) → p x ≡ q x) → (xs : List A) → any p xs ≡ any q xs
  any_alike p q h [] = refl
  any_alike p q h (x ∷ xs) = rw (h x, any_alike p q h xs)

  pub contains-map {κ} :
      {B : Type κ} ⦃e : Eq B⦄ (f : A → B) (p : A → Bool) (b : B) (xs : List A)
      → contains (map f (select p xs)) b ≡ any (λ x. p x && b == f x) xs
  contains-map f p b [] = refl
  contains-map f p b (x ∷ xs) = ground (arith, contains-map f p b xs)

module _ {ℓ} {A : Type ℓ} ⦃e : Eq A⦄ where
  -- An index that files nothing under the value `zero`.
  pub contains-singleton :
      (zero key a : A) → a ≢ zero → contains (if key == zero then [] else key ∷ []) a ≡ (key == a)
  contains-singleton zero key a h = ground arith
