-- ===== src/DeepCopy/Entries.antt =====
-- The loop that fills a new map.
use obs_operator.Base.{String, string_eq, ◌≡◌, refl, Option, none, some, [], ◌∷◌, arith}
use obs_operator.Base.Dict.{Dict, lookup, insert, NodupKeys, lookup-insert, insert-NodupKeys}
use obs_operator.DeepCopy.Compose.{Extends-refl, Done-pure, IsDeep}
use obs_operator.DeepCopy.Memory.{pure}
use obs_operator.DeepCopy.Copy.{copy_entries}
use obs_operator.DeepCopy.Readings.{TagsRead}

abbrev first {ℓ} : {A : Type ℓ} → Option A → Option A → Option A
first none b = b
first (some a) _ = some a

lookup-copy_entries :
    (key : String) (d out : Dict String String)
    → NodupKeys d
    → lookup key (copy_entries d out) ≡ first (lookup key d) (lookup key out)
unfolding copy_entries lookup
lookup-copy_entries key [] out _ = refl
lookup-copy_entries key ((k, v) ∷ d) out (fresh, u) =
    ground (arith, lookup-copy_entries key d (insert k v out) u, lookup-insert key k v out)

copy_entries-NodupKeys :
    (d out : Dict String String) → NodupKeys out → NodupKeys (copy_entries d out)
unfolding copy_entries
copy_entries-NodupKeys [] out u = u
copy_entries-NodupKeys ((k, v) ∷ d) out u =
    copy_entries-NodupKeys d (insert k v out) (insert-NodupKeys k v out u)

first-none {ℓ} : {A : Type ℓ} (o : Option A) → first o none ≡ o
first-none none = refl
first-none (some a) = refl

-- The new map has the entries of the old one, whatever the order in which the loop meets them.
pub copy_entries-IsDeep :
    {O : Type 0} → IsDeep {O = O} TagsRead (λ entries. pure (copy_entries entries []))
unfolding lookup
copy_entries-IsDeep = record {
  at = λ h d v r. Done-pure h h (copy_entries d []) (Extends-refl h) (record {
    keys_once = copy_entries-NodupKeys d [] tt;
    entries = λ key.
        rw (lookup-copy_entries key d [] r.keys_once, first-none (lookup key d)) (r.entries key);
  });
}
