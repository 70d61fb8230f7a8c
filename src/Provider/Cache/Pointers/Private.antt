-- ===== src/Provider/Cache/Pointers/Private.antt =====
-- A pointer that `get` or `set` returned is the caller's own.
use obs_operator.Base.{ℕ, refl, sym, ◌==◌, Option, none, some, inl, inr, Bool-cases, if◌then◌else◌}
use obs_operator.Base.Dict.{lookup}
use obs_operator.Api.{namespaced_name_eq}
use obs_operator.DeepCopy.Memory.{Heap, pure}
use obs_operator.DeepCopy.Compose.{Extends, Extends-refl, IsDeep, Done, Done-pure}
use obs_operator.DeepCopy.Parts.{Nullable, Plain-IsMonotone, Plain-IsDeep, unless_nil-IsDeep}
use obs_operator.DeepCopy.Cells.{IsSlot, renew-IsDeep}
use obs_operator.Provider.Cache.{
  CacheKey, CacheEntry, ResolvedClient, Clients, Cache, get, cache_key_eq,
}
use obs_operator.Provider.Cache.Pointers.{
  PointerEntry, Pointers, client_slot, clone_resolved_client, get_pointer,
}
use obs_operator.Provider.Cache.Pointers.Entries.{ClientReads, EntryReads, CacheReads, lookup-Reads}

pub client_slot-IsSlot : IsSlot client_slot
client_slot-IsSlot = record { at = λ x. refl }

-- The map reads as `cache` in a heap that is older than the pointer, and the pointer reads as `x`.
pub record IsPrivate (cache : Cache) (x : Option ResolvedClient) (pointer : Option ℕ)
    (clients : Option Pointers) (k : Heap ResolvedClient) : Type 0 where
  pub before : Heap ResolvedClient
  pub reads : CacheReads 0 before clients cache
  pub later : Extends before k
  pub own : Nullable ClientReads before.next k pointer x

pub clone-IsDeep : IsDeep (Nullable ClientReads) clone_resolved_client
unfolding clone_resolved_client
clone-IsDeep =
    unless_nil-IsDeep (renew-IsDeep client_slot client_slot-IsSlot Plain-IsMonotone Plain-IsDeep)

found_pointer :
    (h : Heap ResolvedClient) (p : Pointers) (v : Clients) (key : CacheKey)
    (e : Option PointerEntry) (x : Option CacheEntry)
    → Nullable EntryReads 0 h e x
    → Done h h
        (elim e [
          | none ↦ pure none
          | some entry ↦
              if entry.key == key then clone_resolved_client (some entry.resolved) else pure none
        ])
        (λ q k. Nullable ClientReads h.next k q (elim x [
          | none ↦ none
          | some entry ↦ if entry.key == key then some entry.resolved else none
        ]))
found_pointer h p v key none none r = Done-pure h h none (Extends-refl h) tt
found_pointer h p v key (some e) (some x) (keys, r) = elim (Bool-cases (e.key == key)) [
  | inl t ↦ rw (sym keys, t) (clone-IsDeep.at h (some e.resolved) (some x.resolved) r)
  | inr t ↦ rw (sym keys, t) (Done-pure h h none (Extends-refl h) tt)
]
found_pointer h p v key (some _) none r = absurd r
found_pointer h p v key none (some _) r = absurd r

pub get_pointer-Done :
    (h : Heap ResolvedClient) (p : Option Pointers) (v : Cache) (key : CacheKey)
    → CacheReads 0 h p v
    → Done h h (get_pointer p key) (λ q k. Nullable ClientReads h.next k q (get v key))
unfolding get_pointer get
get_pointer-Done h none none key r = Done-pure h h none (Extends-refl h) tt
get_pointer-Done h (some p) (some v) key r =
    found_pointer h p v key (lookup key.provider_config p) (lookup key.provider_config v)
      (lookup-Reads 0 h key.provider_config p v r)
get_pointer-Done h (some _) none key r = absurd r
get_pointer-Done h none (some _) key r = absurd r
