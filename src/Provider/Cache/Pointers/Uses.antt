-- ===== src/Provider/Cache/Pointers/Uses.antt =====
-- Callers of the cache that write through the pointers they get, and the cache without pointers.
use obs_operator.Base.{ℕ, ◌≡◌, refl, ap, ◌∙◌, Option, none, some, List, [], ◌∷◌, arith}
use obs_operator.Api.{NamespacedName}
use obs_operator.Services.{ObsClient}
use obs_operator.DeepCopy.Memory.{Heap, pure, ◌>>=◌, ◌>>◌, load, put}
use obs_operator.DeepCopy.Compose.{Extends-refl, Done, Done-pure, Done-bind, Done-since, carry}
use obs_operator.DeepCopy.Cells.{Done-load, Done-put}
use obs_operator.Provider.Cache.{CacheKey, ResolvedClient, Cache, get, set, invalidate_provider}
use obs_operator.Provider.Cache.Pointers.{
  Pointers, client_slot, Client, get_pointer, set_pointer, invalidate_pointer,
}
use obs_operator.Provider.Cache.Pointers.Entries.{CacheReads, CacheReads-IsMonotone}
use obs_operator.Provider.Cache.Pointers.Private.{IsPrivate, client_slot-IsSlot, get_pointer-Done}
use obs_operator.Provider.Cache.Pointers.Storing.{set_pointer-Done}
use obs_operator.Provider.Cache.Pointers.Erasing.{invalidate_pointer-Done}

-- A call of the cache. The caller of `get` and of `set` reads the client that it is given, and then
-- overwrites it with a client of its own.
pub data Use : Type 0 where
  got : CacheKey → ResolvedClient → Use
  stored : CacheKey → ObsClient → ResolvedClient → Use
  invalidated : NamespacedName → Use

-- What the caller read, and the clients that were closed.
abbrev pub Answer : Type 0
Answer = Option ResolvedClient × List ObsClient

unfoldable pub read_and_overwrite : Option ℕ → ResolvedClient → Client (Option ResolvedClient)
read_and_overwrite none own = pure none
read_and_overwrite (some a) own = do x ← load client_slot a; put client_slot a own; pure (some x)

unfoldable pub use_pointer : Use → Option Pointers → Client (Answer × Option Pointers)
use_pointer (got key own) p = do
  q ← get_pointer p key
  x ← read_and_overwrite q own
  pure ((x, []), p)
use_pointer (stored key client own) p = do
  (q, after, closed) ← set_pointer p key client
  x ← read_and_overwrite q own
  pure ((x, closed), after)
use_pointer (invalidated name) p = do
  (after, closed) ← invalidate_pointer p name
  pure ((none, closed), after)

unfoldable pub use_pointers : List Use → Option Pointers → Client (List Answer)
use_pointers [] p = pure []
use_pointers (u ∷ us) p = do
  (answer, after) ← use_pointer u p
  answers ← use_pointers us after
  pure (answer ∷ answers)

-- The same calls of a cache that hands out values.
unfoldable pub use_value : Use → Cache → Answer × Cache
use_value (got key own) v = ((get v key, []), v)
use_value (stored key client own) v =
    let (x, after, closed) = set v key client in ((some x, closed), after)
use_value (invalidated name) v =
    let (after, closed) = invalidate_provider v name in ((none, closed), after)

unfoldable pub use_values : List Use → Cache → List Answer
use_values [] v = []
use_values (u ∷ us) v = let (answer, after) = use_value u v in answer ∷ use_values us after

abbrev nothing : Heap ResolvedClient
nothing = record { next = 0; cell = λ _. none }

-- A run for which it does not matter what it touches.
anywhere :
    {A : Type 0} {h k : Heap ResolvedClient} {m : Client A} {P : A → Heap ResolvedClient → Type 0}
    → Done h k m P
    → Done nothing k m P
anywhere d = record {
  value = d.value;
  heap = d.heap;
  returned = d.returned;
  keeps = record { grows = omega arith; same = λ a i. absurd (omega (arith, i)) };
  holds = d.holds;
}

read_and_overwrite-Done :
    (v : Cache) (x : Option ResolvedClient) (q : Option ℕ) (p : Option Pointers)
    (k : Heap ResolvedClient) (own : ResolvedClient)
    → IsPrivate v x q p k
    → Done nothing k (read_and_overwrite q own) (λ y l. (y ≡ x) × CacheReads 0 l p v)
unfolding read_and_overwrite
read_and_overwrite-Done v none none p k own i = anywhere (
    Done-pure i.before k none i.later
      (refl, carry CacheReads-IsMonotone 0 i.before k p v i.later i.reads))
read_and_overwrite-Done v (some x) (some a) p k own i = anywhere (
    Done-bind (Done-load client_slot client_slot-IsSlot i.later i.own.seen.stands)
      λ y l e (same, here).
        Done-bind
          (Done-put client_slot own e i.own.seen.from (ap (λ j. j.cell a) here ∙ i.own.seen.stands))
          λ _ m f _.
            Done-pure i.before m (some y) f (
              ap some (same ∙ i.own.reads),
              carry CacheReads-IsMonotone 0 i.before m p v f i.reads,
            ))
read_and_overwrite-Done v (some _) none p k own i = absurd i.own
read_and_overwrite-Done v none (some _) p k own i = absurd i.own

use_pointer-Done :
    (u : Use) (h : Heap ResolvedClient) (p : Option Pointers) (v : Cache)
    → CacheReads 0 h p v
    → Done nothing h
        (use_pointer u p)
        (λ out k. (out.0 ≡ (use_value u v).0) × CacheReads 0 k out.1 (use_value u v).1)
unfolding use_pointer use_value
use_pointer-Done (got key own) h p v r =
    Done-bind (anywhere (Done-since (Extends-refl h) (get_pointer-Done h p v key r)))
      λ q k _ (e, i).
        Done-bind
          (read_and_overwrite-Done v (get v key) q p k own
            (record { before = h; reads = r; later = e; own = i }))
          λ x l f (same, reads). Done-pure nothing l _ f (ap (λ y. (y, [])) same, reads)
use_pointer-Done (stored key client own) h p v r =
    Done-bind (anywhere (set_pointer-Done h p v key client r)) λ out k _ (i, closed).
      Done-bind
        (read_and_overwrite-Done (set v key client).1 (some (set v key client).0) out.0 out.1 k own
          i)
        λ x l f (same, reads). Done-pure nothing l _ f (rw (same, closed) refl, reads)
use_pointer-Done (invalidated name) h p v r =
    Done-bind (anywhere (invalidate_pointer-Done h p v name r))
      λ out k e (reads, closed). Done-pure nothing k _ e (rw closed refl, reads)

use_pointers-Done :
    (us : List Use) (h : Heap ResolvedClient) (p : Option Pointers) (v : Cache)
    → CacheReads 0 h p v
    → Done nothing h (use_pointers us p) (λ answers _. answers ≡ use_values us v)
unfolding use_pointers use_values
use_pointers-Done [] h p v r = anywhere (Done-pure h h [] (Extends-refl h) refl)
use_pointers-Done (u ∷ us) h p v r = Done-bind (use_pointer-Done u h p v r) λ out k _ (same, reads).
    Done-bind (use_pointers-Done us k out.1 (use_value u v).1 reads)
      λ answers l f rest. Done-pure nothing l _ f (rw (same, rest) refl)

abbrev pub answers_of : Option (List Answer × Heap ResolvedClient) → Option (List Answer)
answers_of none = none
answers_of (some (answers, _)) = some answers

-- When the map of pointers reads as the cache `v`, any sequence of calls of `get`, `set` and
-- `InvalidateProvider` runs without a fault on the pointers, though every caller overwrites the
-- client that it was given, and each call gives the client, and closes the clients, that the same
-- call gives and closes on the cache of values `v`.
pub use_pointers-use_values :
    (us : List Use) (h : Heap ResolvedClient) (p : Option Pointers) (v : Cache)
    → CacheReads 0 h p v
    → answers_of (use_pointers us p h) ≡ some (use_values us v)
use_pointers-use_values us h p v r =
    let d = use_pointers-Done us h p v r in rw d.returned (ap some d.holds)
