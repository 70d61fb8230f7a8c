-- ===== src/BucketController/Watch/Updates.antt =====
-- Which updates of a Bucket `bucketEventPredicate` lets through.
use obs_operator.Base.{
  String, ◌≡◌, refl, ◌↔◌, Bool, true, false, not, ◌||◌, some, List, [], ◌∷◌, arith,
}
use obs_operator.Base.{◌==◌, ==_refl, eq-of-==, string_eq, nat_eq, option_eq, Bool-cases, inl, inr}
use obs_operator.Api.{ObjectMeta}
use obs_operator.BucketController.Watch.{strings_equal, bucket_update_passes}

strings_equal_self : (ss : List String) → strings_equal ss ss ≡ true
unfolding strings_equal
strings_equal_self [] = refl
strings_equal_self (s ∷ ss) = rw (==_refl s, strings_equal_self ss) refl

eq-of-strings_equal : (ss ts : List String) → strings_equal ss ts ≡ true → ss ≡ ts
unfolding strings_equal
eq-of-strings_equal [] [] h = refl
eq-of-strings_equal [] (t ∷ ts) h = cc
eq-of-strings_equal (s ∷ ss) [] h = cc
eq-of-strings_equal (s ∷ ss) (t ∷ ts) h = elim (Bool-cases (s == t)) [
  | inl e ↦ let rest = eq-of-strings_equal ss ts (rw e at h) in let here = eq-of-== s t e in cc
  | inr e ↦ absurd (clash (rw e at h))
]
  where
    clash : false ≡ true → ⊥
    clash k = cc

none_differs :
    (a b c : Bool) → (not a || not b || not c) ≡ false → (a ≡ true) × (b ≡ true) × (c ≡ true)
none_differs a b c h = ground arith

-- The two states of a Bucket differ in nothing that the predicate looks at.
abbrev pub AreAlike : ObjectMeta → ObjectMeta → Type 0
AreAlike old new =
    (old.generation ≡ new.generation)
    × (old.deletion_timestamp ≡ new.deletion_timestamp)
    × (old.finalizers ≡ new.finalizers)

-- An update of a Bucket is dropped exactly if it changes neither the generation nor the deletion
-- time nor the finalizers.
pub bucket_update_passes-AreAlike :
    (old new : ObjectMeta) → bucket_update_passes (some old) (some new) ≡ false ↔ AreAlike old new
unfolding bucket_update_passes
bucket_update_passes-AreAlike old new = (dropped, alike)
  where
    dropped : bucket_update_passes (some old) (some new) ≡ false → AreAlike old new
    dropped h =
        let (g, d, f) =
          none_differs (old.generation == new.generation)
            (old.deletion_timestamp == new.deletion_timestamp)
            (strings_equal old.finalizers new.finalizers) h in
        (eq-of-== _ _ g, eq-of-== _ _ d, eq-of-strings_equal _ _ f)

    alike : AreAlike old new → bucket_update_passes (some old) (some new) ≡ false
    alike (g, d, f) =
        rw
          (
            g,
            d,
            f,
            ==_refl new.generation,
            ==_refl new.deletion_timestamp,
            strings_equal_self new.finalizers,
          )
          refl
