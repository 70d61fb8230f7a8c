-- ===== src/Provider/Cache/Pointers/Entries.antt =====
-- A map of pointers that reads as a map of resolved clients.
use obs_operator.Base.{ℕ, ◌≡◌, refl, sym, ◌==◌, Option, [], ◌∷◌, inl, inr, Bool-cases}
use obs_operator.Base.Dict.{lookup, insert}
use obs_operator.Api.{NamespacedName, namespaced_name_eq}
use obs_operator.DeepCopy.Memory.{Heap}
use obs_operator.DeepCopy.Compose.{Reading, IsMonotone}
use obs_operator.DeepCopy.Parts.{
  Plain, Nullable, Each, Behind, Plain-IsMonotone, Nullable-IsMonotone, Each-IsMonotone,
  Behind-IsMonotone,
}
use obs_operator.Provider.Cache.{CacheEntry, ResolvedClient, Clients, Cache}
use obs_operator.Provider.Cache.Pointers.{PointerEntry, Pointers, client_slot}

abbrev pub ClientReads : Reading ResolvedClient ℕ ResolvedClient
ClientReads = Behind client_slot Plain

abbrev pub EntryReads : Reading ResolvedClient PointerEntry CacheEntry
EntryReads lo h e x = (e.key ≡ x.key) × ClientReads lo h e.resolved x.resolved

abbrev NamedReads :
    Reading ResolvedClient (NamespacedName × PointerEntry) (NamespacedName × CacheEntry)
NamedReads lo h (n, e) (m, x) = (n ≡ m) × EntryReads lo h e x

abbrev pub ClientsRead : Reading ResolvedClient Pointers Clients
ClientsRead = Each NamedReads

-- A nil cache reads as `none`.
abbrev pub CacheReads : Reading ResolvedClient (Option Pointers) Cache
CacheReads = Nullable ClientsRead

pub ClientReads-IsMonotone : IsMonotone ClientReads
ClientReads-IsMonotone = Behind-IsMonotone Plain-IsMonotone client_slot

NamedReads-IsMonotone : IsMonotone NamedReads
NamedReads-IsMonotone = record {
  at = λ lo lo' h k (n, e) (m, x) shows (names, (keys, r)).
      (names, (keys, ClientReads-IsMonotone.at lo lo' h k e.resolved x.resolved shows r));
}

pub ClientsRead-IsMonotone : IsMonotone ClientsRead
ClientsRead-IsMonotone = Each-IsMonotone NamedReads-IsMonotone

pub CacheReads-IsMonotone : IsMonotone CacheReads
CacheReads-IsMonotone = Nullable-IsMonotone ClientsRead-IsMonotone

pub lookup-Reads :
    (lo : ℕ) (h : Heap ResolvedClient) (name : NamespacedName) (p : Pointers) (v : Clients)
    → ClientsRead lo h p v
    → Nullable EntryReads lo h (lookup name p) (lookup name v)
unfolding lookup
lookup-Reads lo h name [] [] r = tt
lookup-Reads lo h name ((n, e) ∷ p) ((m, x) ∷ v) ((names, r), rs) = elim (Bool-cases (name == n)) [
  | inl t ↦ rw (sym names, t) r
  | inr t ↦ rw (sym names, t) (lookup-Reads lo h name p v rs)
]
lookup-Reads lo h name [] (_ ∷ _) r = absurd r
lookup-Reads lo h name (_ ∷ _) [] r = absurd r

pub insert-ClientsRead :
    (lo : ℕ) (h : Heap ResolvedClient) (name : NamespacedName) (e : PointerEntry) (x : CacheEntry)
    (p : Pointers) (v : Clients)
    → EntryReads lo h e x
    → ClientsRead lo h p v
    → ClientsRead lo h (insert name e p) (insert name x v)
unfolding insert
insert-ClientsRead lo h name e x [] [] i r = ((refl, i), tt)
insert-ClientsRead lo h name e x ((n, d) ∷ p) ((m, y) ∷ v) i ((names, r), rs) =
    elim (Bool-cases (name == n)) [
      | inl t ↦ rw (sym names, t) ((refl, i), rs)
      | inr t ↦ rw (sym names, t) ((refl, r), insert-ClientsRead lo h name e x p v i rs)
    ]
insert-ClientsRead lo h name e x [] (_ ∷ _) i r = absurd r
insert-ClientsRead lo h name e x (_ ∷ _) [] i r = absurd r
