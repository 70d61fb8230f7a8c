-- ===== src/Provider/Cache/Held.antt =====
-- A property of every client that the cache holds, and of the key that the client stands under.
use obs_operator.Base.{◌≡◌, Option, none, some, [], ◌∷◌}
use obs_operator.Base.{◌==◌, Option-cases, Bool-cases, eq-of-==, inl, inr}
use mathlib.Core.Path.{subst}
use mathlib.Core.Option.{some-injective}
use obs_operator.Base.Dict.{lookup, insert, erase}
use obs_operator.Api.{NamespacedName, namespaced_name_eq}
use obs_operator.Services.{ObsClient}
use obs_operator.Provider.Cache.{
  CacheKey, ResolvedClient, CacheEntry, Cache, Clients, get, set, set_over, invalidate_provider,
  new_resolved_client, cache_key_eq,
}

module _ (P : CacheKey → ResolvedClient → Type 0) where
  abbrev pub Held : Clients → Type 0
  Held [] = Unit
  Held ((_, entry) ∷ d) = P entry.key entry.resolved × Held d

  abbrev pub HeldIn : Cache → Type 0
  HeldIn none = Unit
  HeldIn (some d) = Held d

  lookup-Held :
      (k : NamespacedName) (d : Clients) (entry : CacheEntry)
      → Held d
      → lookup k d ≡ some entry
      → P entry.key entry.resolved
  unfolding lookup
  lookup-Held k [] entry h e = cc
  lookup-Held k ((j, x) ∷ d) entry (p, h) e = elim (Bool-cases (k == j)) [
    | inl t ↦ subst (λ (y : CacheEntry). P y.key y.resolved) (some-injective _ _ (rw t at e)) p
    | inr t ↦ lookup-Held k d entry h (rw t at e)
  ]

  insert-Held :
      (k : NamespacedName) (entry : CacheEntry) (d : Clients)
      → P entry.key entry.resolved
      → Held d
      → Held (insert k entry d)
  unfolding insert
  insert-Held k entry [] p h = (p, tt)
  insert-Held k entry ((j, x) ∷ d) p (q, h) = elim (Bool-cases (k == j)) [
    | inl t ↦ rw t (p, h)
    | inr t ↦ rw t (q, insert-Held k entry d p h)
  ]

  erase-Held : (k : NamespacedName) (d : Clients) → Held d → Held (erase k d)
  unfolding erase
  erase-Held k [] h = tt
  erase-Held k ((j, x) ∷ d) (q, h) =
      let rest = erase-Held k d h in
      elim (Bool-cases (k == j)) [ inl t ↦ rw t h | inr t ↦ rw t (q, rest) ]

  -- The methods that write keep the property when the client that is stored has it.
  pub set-HeldIn :
      (cache : Cache) (key : CacheKey) (client : ObsClient)
      → P key (new_resolved_client key client)
      → HeldIn cache
      → HeldIn (set cache key client).1
  unfolding set set_over
  set-HeldIn none key client p h = tt
  set-HeldIn (some d) key client p h =
      let entry : CacheEntry = record { key = key; resolved = new_resolved_client key client } in
      let inserted = insert-Held key.provider_config entry d p h in
      elim (Option-cases (lookup key.provider_config d)) [
        | inl e ↦ rw (e, set) inserted
        | inr (old, e) ↦ elim (Bool-cases (old.key == key)) [
          | inl t ↦ rw (e, set, t) h
          | inr t ↦ rw (e, set, t) inserted
        ]
      ]

  pub invalidate_provider-HeldIn :
      (cache : Cache) (name : NamespacedName)
      → HeldIn cache
      → HeldIn (invalidate_provider cache name).0
  unfolding invalidate_provider
  invalidate_provider-HeldIn none name h = tt
  invalidate_provider-HeldIn (some d) name h = elim (Option-cases (lookup name d)) [
    | inl e ↦ rw (e, invalidate_provider) h
    | inr (old, e) ↦ rw (e, invalidate_provider) (erase-Held name d h)
  ]

  -- What `get` finds has the property under the whole key.
  pub get-HeldIn :
      (cache : Cache) (key : CacheKey) (r : ResolvedClient)
      → HeldIn cache
      → get cache key ≡ some r
      → P key r
  unfolding get
  get-HeldIn none key r h e = cc
  get-HeldIn (some d) key r h e = elim (Option-cases (lookup key.provider_config d)) [
    | inl missing ↦ absurd (no_client (rw (missing, get) at e))
    | inr (entry, is) ↦ elim (Bool-cases (entry.key == key)) [
      | inr t ↦ absurd (no_client (rw (is, get, t) at e))
      | inl t ↦
          subst (λ k. P k r) (eq-of-== entry.key key t)
            (subst (P entry.key) (some-injective _ _ (rw (is, get, t) at e))
              (lookup-Held key.provider_config d entry h is))
    ]
  ]
    where
      no_client : ◌≡◌ {A = Option ResolvedClient} none (some r) → ⊥
      no_client i = cc
