-- ===== src/BucketController/Settings/Tags.antt =====
-- `tagsFromMap` and the map that `bucketTags` reads back from its tags.
use Prim.Native.String.{compare}
use text.Mathlib.Text.{is_le}
use obs_operator.Base.{
  suc, ◌+◌, String, ◌≡◌, refl, sym, ap, ◌∙◌, Bool, true, false, ◌||◌, none, some, List, [], ◌∷◌,
  map, arith,
}
use obs_operator.Base.{
  ◌==◌, ==_refl, eq-of-==, contains, string_eq, nat_eq, option_eq, length, is_some, Bool-cases,
  Option-cases, and_left, and_right, inl, inr,
}
use obs_operator.Base.Dict.{Dict, lookup, insert, lookup-insert, NodupKeys}
use obs_operator.Services.{Tag}
use obs_operator.BucketController.Settings.{
  tag_map, all_entries_in, maps_equal, insert_sorted, sort_strings, value_at, tags_from_map,
}

abbrev keys : Dict String String → List String
keys d = map (λ (k, _). k) d

abbrev tag_of : Dict String String → String → Tag
tag_of d k = record { key = k; value = value_at d k }

-- No text stands twice.
abbrev Distinct : List String → Type 0
Distinct [] = Unit
Distinct (x ∷ xs) = (contains xs x ≡ false) × Distinct xs

contains-insert_sorted :
    (s : String) (ts : List String) (x : String)
    → contains (insert_sorted s ts) x ≡ (x == s || contains ts x)
unfolding insert_sorted
contains-insert_sorted s [] x = refl
contains-insert_sorted s (t ∷ ts) x = elim (Bool-cases (is_le (compare s t))) [
  | inl h ↦ rw h refl
  | inr h ↦ rw h (ground (arith, contains-insert_sorted s ts x))
]

contains-sort_strings :
    (ss : List String) (x : String) → contains (sort_strings ss) x ≡ contains ss x
unfolding sort_strings
contains-sort_strings [] x = refl
contains-sort_strings (s ∷ ss) x =
    contains-insert_sorted s (sort_strings ss) x
    ∙ ap (λ b. x == s || b) (contains-sort_strings ss x)

fresh_below :
    (s t : String) (ts : List String) → contains (t ∷ ts) s ≡ false → contains ts s ≡ false
fresh_below s t ts h = ground arith

not_other :
    (s t : String) (ts : List String)
    → contains (t ∷ ts) s ≡ false
    → contains ts t ≡ false
    → (t == s || contains ts t) ≡ false
not_other s t ts h k = ground arith

insert_sorted-Distinct :
    (s : String) (ts : List String)
    → contains ts s ≡ false
    → Distinct ts
    → Distinct (insert_sorted s ts)
unfolding insert_sorted
insert_sorted-Distinct s [] fresh d = (refl, tt)
insert_sorted-Distinct s (t ∷ ts) fresh d = elim (Bool-cases (is_le (compare s t))) [
  | inl h ↦ rw h (fresh, d)
  | inr h ↦ rw h (
    contains-insert_sorted s ts t ∙ not_other s t ts fresh d.0,
    insert_sorted-Distinct s ts (fresh_below s t ts fresh) d.1,
  )
]

sort_strings-Distinct : (ss : List String) → Distinct ss → Distinct (sort_strings ss)
unfolding sort_strings
sort_strings-Distinct [] d = tt
sort_strings-Distinct (s ∷ ss) d =
    insert_sorted-Distinct s (sort_strings ss) (contains-sort_strings ss s ∙ d.0)
      (sort_strings-Distinct ss d.1)

length-insert_sorted :
    (s : String) (ts : List String) → length (insert_sorted s ts) ≡ suc (length ts)
unfolding insert_sorted
length-insert_sorted s [] = refl
length-insert_sorted s (t ∷ ts) = elim (Bool-cases (is_le (compare s t))) [
  | inl h ↦ rw h refl
  | inr h ↦ rw h (ap suc (length-insert_sorted s ts))
]

length-sort_strings : (ss : List String) → length (sort_strings ss) ≡ length ss
unfolding sort_strings
length-sort_strings [] = refl
length-sort_strings (s ∷ ss) =
    length-insert_sorted s (sort_strings ss) ∙ ap suc (length-sort_strings ss)

length-keys : (d : Dict String String) → length (keys d) ≡ length d
length-keys [] = refl
length-keys (x ∷ d) = ap suc (length-keys d)

contains-keys : (d : Dict String String) (k : String) → contains (keys d) k ≡ is_some (lookup k d)
unfolding lookup
contains-keys [] k = refl
contains-keys ((j, v) ∷ d) k = ground (arith, contains-keys d k)

keys-Distinct : (d : Dict String String) → NodupKeys d → Distinct (keys d)
keys-Distinct [] u = tt
keys-Distinct ((k, v) ∷ d) u = (contains-keys d k ∙ ap is_some u.0, keys-Distinct d u.1)

lookup-value_at :
    (d : Dict String String) (k : String)
    → contains (keys d) k ≡ true
    → lookup k d ≡ some (value_at d k)
unfolding value_at
lookup-value_at d k h = elim (Option-cases (lookup k d)) [
  | inl e ↦ let missing = contains-keys d k ∙ ap is_some e in cc
  | inr (v, e) ↦ rw (value_at, e) refl
]

all_entries_in-insert :
    (k v : String) (acc d : Dict String String)
    → lookup k d ≡ some v
    → all_entries_in acc d ≡ true
    → all_entries_in (insert k v acc) d ≡ true
unfolding all_entries_in insert
all_entries_in-insert k v [] d h a = rw (h, ==_refl (some v)) refl
all_entries_in-insert k v ((j, w) ∷ acc) d h a =
    let here = and_left (lookup j d == some w) (all_entries_in acc d) a in
    let rest = and_right (lookup j d == some w) (all_entries_in acc d) a in
    elim (Bool-cases (k == j)) [
      | inl t ↦ rw t (rw (h, ==_refl (some v)) rest)
      | inr t ↦ rw (t, all_entries_in) (rw here (all_entries_in-insert k v acc d h rest))
    ]

length-insert :
    (k v : String) (acc : Dict String String)
    → lookup k acc ≡ none
    → length (insert k v acc) ≡ suc (length acc)
unfolding insert lookup
length-insert k v [] h = refl
length-insert k v ((j, w) ∷ acc) h = ground (arith, length-insert k v acc)

or_true : (b : Bool) → (b || true) ≡ true
or_true true = refl
or_true false = refl

-- Every entry that is put in is one of `d`.
all_entries_in-tag_map :
    (d : Dict String String) (ks : List String) (acc : Dict String String)
    → ((k : String) → contains ks k ≡ true → contains (keys d) k ≡ true)
    → all_entries_in acc d ≡ true
    → all_entries_in (tag_map acc (map (tag_of d) ks)) d ≡ true
unfolding tag_map
all_entries_in-tag_map d [] acc h a = a
all_entries_in-tag_map d (k ∷ ks) acc h a =
    all_entries_in-tag_map d ks (insert k (value_at d k) acc) (λ j c. h j (rw c (or_true (j == k))))
      (all_entries_in-insert k (value_at d k) acc d
        (lookup-value_at d k (h k (rw (==_refl k) refl))) a)

-- Distinct keys that are not there yet add one entry each.
length-tag_map :
    (d : Dict String String) (ks : List String) (acc : Dict String String)
    → Distinct ks
    → ((k : String) → contains ks k ≡ true → lookup k acc ≡ none)
    → length (tag_map acc (map (tag_of d) ks)) ≡ length ks + length acc
unfolding tag_map
length-tag_map d [] acc u h = omega arith
length-tag_map d (k ∷ ks) acc u h =
    let longer = length-insert k (value_at d k) acc (h k (rw (==_refl k) refl)) in
    let rest = length-tag_map d ks (insert k (value_at d k) acc) u.1 (λ j c.
      lookup-insert j k (value_at d k) acc ∙ elim (Bool-cases (j == k)) [
        | inl t ↦ let same = ap (contains ks) (eq-of-== j k t) in let fresh = u.0 in cc
        | inr t ↦ rw t (h j (rw c (or_true (j == k))))
      ]) in
    omega (arith, longer, rest)

abbrev no_tags : Dict String String
no_tags = []

no_entry : (k : String) → lookup k no_tags ≡ none
unfolding lookup
no_entry k = refl

none_in : (d : Dict String String) → all_entries_in [] d ≡ true
unfolding all_entries_in
none_in d = refl

maps_equal-length :
    (a b : Dict String String)
    → length a ≡ length b
    → all_entries_in a b ≡ true
    → maps_equal a b ≡ true
unfolding maps_equal
maps_equal-length a b e h = rw (e, ==_refl (length b)) h

-- The tags that are set for a map, in whatever order it is listed, are read back as an equal map,
-- provided that no key stands twice in it, as in every Go map.
pub maps_equal-tags_from_map :
    (d : Dict String String) → NodupKeys d → maps_equal (tag_map [] (tags_from_map d)) d ≡ true
unfolding tags_from_map
maps_equal-tags_from_map d u =
    let ks = sort_strings (keys d) in
    let longer =
      length-tag_map d ks no_tags (sort_strings-Distinct (keys d) (keys-Distinct d u))
        (λ k c. no_entry k) in
    let sorted = length-sort_strings (keys d) in
    let many = length-keys d in
    maps_equal-length (tag_map [] (map (tag_of d) ks)) d (omega arith) (
      all_entries_in-tag_map d ks [] (λ k c. sym (contains-sort_strings (keys d) k) ∙ c)
        (none_in d))
