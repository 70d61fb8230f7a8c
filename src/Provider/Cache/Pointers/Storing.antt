-- ===== src/Provider/Cache/Pointers/Storing.antt =====
-- What `set` returns on pointers, and what it leaves in the map.
use obs_operator.Base.{
  ℕ, ◌≡◌, refl, sym, ap, ◌∙◌, ◌==◌, true, Option, none, some, List, [], ◌∷◌, inl, inr, Bool-cases,
  arith,
}
use mathlib.Core.Path.{subst}
use obs_operator.Base.Dict.{lookup, insert}
use obs_operator.Api.{namespaced_name_eq}
use obs_operator.Services.{ObsClient}
use obs_operator.DeepCopy.Memory.{Heap}
use obs_operator.DeepCopy.Compose.{
  Extends-refl, Extends-trans, extended, Done, Done-pure, Done-bind, carry,
}
use obs_operator.DeepCopy.Parts.{Nullable, Plain-IsMonotone, Plain-IsDeep}
use obs_operator.DeepCopy.Cells.{renew-IsDeep, Done-load, Done-new, Done-put}
use obs_operator.Provider.Cache.{
  CacheKey, CacheEntry, ResolvedClient, Clients, Cache, new_resolved_client, set, set_over,
  cache_key_eq,
}
use obs_operator.Provider.Cache.Pointers.{
  PointerEntry, Pointers, client_slot, Stored, allocate, store_pointer, set_pointer_over, set_found,
  set_pointer,
}
use obs_operator.Provider.Cache.Pointers.Entries.{
  ClientReads, EntryReads, ClientsRead, CacheReads, ClientReads-IsMonotone, ClientsRead-IsMonotone,
  lookup-Reads, insert-ClientsRead,
}
use obs_operator.Provider.Cache.Pointers.Private.{IsPrivate, client_slot-IsSlot, clone-IsDeep}

-- What `set` on values returns, as the outcome on pointers.
abbrev pub Outcome : ResolvedClient × Cache × List ObsClient → Stored → Heap ResolvedClient → Type 0
Outcome v out k = IsPrivate v.1 (some v.0) out.0 out.1 k × (out.2 ≡ v.2)

allocate-Done :
    (h : Heap ResolvedClient) (x : ResolvedClient)
    → Done h h (allocate x) (λ a k. ClientReads h.next k a x)
unfolding allocate
allocate-Done h x = Done-bind (Done-new client_slot h) λ out k e (o, n, z).
    Done-bind (Done-put client_slot x e (omega (arith, o)) z) λ _ l f (same_next, stands, _).
      Done-pure h l out f (record {
        object = x;
        seen = record {
          from = omega (arith, o);
          below = omega (arith, o, n, same_next);
          stands = stands;
        };
        reads = refl;
      })

module _ (h : Heap ResolvedClient) (p : Pointers) (v : Clients) (r : ClientsRead 0 h p v)
    (key : CacheKey) (client : ObsClient) (a : ℕ)
    (fresh : ClientReads 0 h a (new_resolved_client key client)) where
  -- The entry of the key is the new client, and `closed` is closed.
  abbrev renewed : List ObsClient → ResolvedClient × Cache × List ObsClient
  renewed closed = (
    new_resolved_client key client,
    some (
        insert key.provider_config (record { key = key; resolved = new_resolved_client key client })
          v),
    closed,
  )

  store_pointer-Done :
      (closed : List ObsClient) → Done h h (store_pointer p key a closed) (Outcome (renewed closed))
  unfolding store_pointer
  store_pointer-Done closed =
      Done-bind (clone-IsDeep.at h (some a) (some (new_resolved_client key client)) fresh)
        λ q k e own. Done-pure h k _ e (
          record {
            before = h;
            reads =
                insert-ClientsRead 0 h key.provider_config (record { key = key; resolved = a })
                  (record { key = key; resolved = new_resolved_client key client }) p v
                  (refl, fresh) r;
            later = e;
            own = own;
          },
          refl,
        )

  set_pointer_over-Done :
      (e : PointerEntry) (x : CacheEntry)
      → EntryReads 0 h e x
      → Done h h (set_pointer_over e p key client a) (Outcome (set_over x v key client))
  unfolding set_pointer_over set_over
  set_pointer_over-Done e x (keys, i) = elim (Bool-cases (e.key == key)) [
    | inl t ↦
        rw (sym keys, t)
          (Done-bind
            ((renew-IsDeep client_slot client_slot-IsSlot Plain-IsMonotone Plain-IsDeep).at h
              e.resolved x.resolved i)
            λ c k f own.
              Done-bind (Done-load client_slot client_slot-IsSlot f own.seen.stands)
                λ y l g (same, here).
                  Done-bind
                    (Done-put client_slot (record y { from_cache = true }) g own.seen.from
                      (ap (λ j. j.cell c) here ∙ own.seen.stands))
                    λ _ n d (same_next, stands, _). Done-pure h n _ d (
                      record {
                        before = h;
                        reads = r;
                        later = d;
                        own = record {
                          object = record y { from_cache = true };
                          seen = record {
                            from = own.seen.from;
                            below =
                                let j = own.seen.below in
                                omega (arith, same_next, ap (λ u. u.next) here, j);
                            stands = stands;
                          };
                          reads =
                              ap {A = ResolvedClient} (λ z. record z { from_cache = true })
                                (same ∙ own.reads);
                        };
                      },
                      refl,
                    ))
    | inr t ↦
        rw (sym keys, t)
          (Done-bind (Done-load client_slot client_slot-IsSlot (Extends-refl h) i.seen.stands)
            λ y l g (same, here).
              subst
                (λ z.
                  Done h z (store_pointer p key a (y.obs ∷ []))
                    (Outcome (renewed (x.resolved.obs ∷ []))))
                (sym here)
                (subst
                  (λ o. Done h h (store_pointer p key a (y.obs ∷ [])) (Outcome (renewed (o ∷ []))))
                  (ap (λ z. z.obs) (same ∙ i.reads)) (store_pointer-Done (y.obs ∷ []))))
  ]

  set_found-Done :
      (e : Option PointerEntry) (x : Option CacheEntry)
      → Nullable EntryReads 0 h e x
      → Done h h
          (set_found e p key client a)
          (Outcome (elim x [ some existing ↦ set_over existing v key client | none ↦ renewed [] ]))
  unfolding set_found
  set_found-Done none none i = store_pointer-Done []
  set_found-Done (some e) (some x) i = set_pointer_over-Done e x i
  set_found-Done (some _) none i = absurd i
  set_found-Done none (some _) i = absurd i

pub set_pointer-Done :
    (h : Heap ResolvedClient) (p : Option Pointers) (v : Cache) (key : CacheKey)
    (client : ObsClient)
    → CacheReads 0 h p v
    → Done h h (set_pointer p key client) (Outcome (set v key client))
unfolding set_pointer set
set_pointer-Done h none none key client r =
    Done-bind (allocate-Done h (new_resolved_client key client))
      λ a k e own. Done-pure h k _ e (record { before = h; reads = tt; later = e; own = own }, refl)
set_pointer-Done h (some p) (some v) key client r =
    Done-bind (allocate-Done h (new_resolved_client key client)) λ a k e own.
      let d =
        set_found-Done k p v (carry ClientsRead-IsMonotone 0 h k p v e r) key client a
          (ClientReads-IsMonotone.at h.next 0 k k a (new_resolved_client key client)
            (extended h.next 0 k k (omega arith) (Extends-refl k)) own)
          (lookup key.provider_config p) (lookup key.provider_config v)
          (lookup-Reads 0 k key.provider_config p v (carry ClientsRead-IsMonotone 0 h k p v e r)) in
      record {
        value = d.value;
        heap = d.heap;
        returned = d.returned;
        keeps = Extends-trans h k d.heap e d.keeps;
        holds = d.holds;
      }
set_pointer-Done h (some _) none key client r = absurd r
set_pointer-Done h none (some _) key client r = absurd r
