-- ===== src/Provider/Cache/Pointers/Erasing.antt =====
-- What `InvalidateProvider` leaves in the map of pointers.
use obs_operator.Base.{
  ℕ, ◌≡◌, refl, sym, ap, ◌∙◌, ◌==◌, Option, none, some, List, [], ◌∷◌, inl, inr, Bool-cases,
}
use mathlib.Core.Path.{subst}
use obs_operator.Base.Dict.{lookup, erase}
use obs_operator.Api.{NamespacedName, namespaced_name_eq}
use obs_operator.Services.{ObsClient}
use obs_operator.DeepCopy.Memory.{Heap}
use obs_operator.DeepCopy.Compose.{Extends-refl, Done, Done-pure, Done-bind}
use obs_operator.DeepCopy.Parts.{Nullable}
use obs_operator.DeepCopy.Cells.{Done-load}
use obs_operator.Provider.Cache.{CacheEntry, ResolvedClient, Clients, Cache, invalidate_provider}
use obs_operator.Provider.Cache.Pointers.{
  PointerEntry, Pointers, client_slot, invalidate_found, invalidate_pointer,
}
use obs_operator.Provider.Cache.Pointers.Entries.{EntryReads, ClientsRead, CacheReads, lookup-Reads}
use obs_operator.Provider.Cache.Pointers.Private.{client_slot-IsSlot}

erase-ClientsRead :
    (lo : ℕ) (h : Heap ResolvedClient) (name : NamespacedName) (p : Pointers) (v : Clients)
    → ClientsRead lo h p v
    → ClientsRead lo h (erase name p) (erase name v)
unfolding erase
erase-ClientsRead lo h name [] [] r = r
erase-ClientsRead lo h name ((n, d) ∷ p) ((m, y) ∷ v) ((names, r), rs) =
    let rest = erase-ClientsRead lo h name p v rs in
    elim (Bool-cases (name == n)) [
      | inl t ↦ rw (sym names, t) rs
      | inr t ↦ rw (sym names, t) ((refl, r), rest)
    ]
erase-ClientsRead lo h name [] (_ ∷ _) r = absurd r
erase-ClientsRead lo h name (_ ∷ _) [] r = absurd r

-- The map that is left reads as the cache that is left, and the same clients are closed.
abbrev pub Left :
    Cache × List ObsClient → Option Pointers × List ObsClient → Heap ResolvedClient → Type 0
Left v out k = CacheReads 0 k out.0 v.0 × (out.1 ≡ v.1)

invalidate_found-Done :
    (h : Heap ResolvedClient) (name : NamespacedName) (p : Pointers) (v : Clients)
    (e : Option PointerEntry) (x : Option CacheEntry)
    → ClientsRead 0 h p v
    → Nullable EntryReads 0 h e x
    → Done h h (invalidate_found e p name) (
        Left (elim x [
          | none ↦ (some v, [])
          | some entry ↦ (some (erase name v), entry.resolved.obs ∷ [])
        ]))
unfolding invalidate_found
invalidate_found-Done h name p v none none r i =
    Done-pure h h (some p, []) (Extends-refl h) (r, refl)
invalidate_found-Done h name p v (some e) (some x) r (keys, i) =
    Done-bind (Done-load client_slot client_slot-IsSlot (Extends-refl h) i.seen.stands)
      λ y l g (same, here). Done-pure h l _ g (
        subst (λ z. ClientsRead 0 z (erase name p) (erase name v)) (sym here)
            (erase-ClientsRead 0 h name p v r),
        ap (λ z. z.obs ∷ []) (same ∙ i.reads),
      )
invalidate_found-Done h name p v (some _) none r i = absurd i
invalidate_found-Done h name p v none (some _) r i = absurd i

pub invalidate_pointer-Done :
    (h : Heap ResolvedClient) (p : Option Pointers) (v : Cache) (name : NamespacedName)
    → CacheReads 0 h p v
    → Done h h (invalidate_pointer p name) (Left (invalidate_provider v name))
unfolding invalidate_pointer invalidate_provider
invalidate_pointer-Done h none none name r = Done-pure h h (none, []) (Extends-refl h) (tt, refl)
invalidate_pointer-Done h (some p) (some v) name r =
    invalidate_found-Done h name p v (lookup name p) (lookup name v) r (lookup-Reads 0 h name p v r)
invalidate_pointer-Done h (some _) none name r = absurd r
invalidate_pointer-Done h none (some _) name r = absurd r
