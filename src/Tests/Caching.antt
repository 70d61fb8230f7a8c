-- ===== src/Tests/Caching.antt =====
-- The property of the cache with pointers, on a heap that holds one cached client.
use obs_operator.Base.{◌≡◌, refl, true, none, some, List, [], ◌∷◌, arith}
use obs_operator.DeepCopy.Memory.{Heap}
use obs_operator.Provider.Cache.{ResolvedClient, new_resolved_client, get, set, invalidate_provider}
use obs_operator.Provider.Cache.Pointers.{Pointers}
use obs_operator.Provider.Cache.Pointers.Entries.{CacheReads}
use obs_operator.Provider.Cache.Pointers.Uses.{
  Use, got, stored, invalidated, Answer, use_pointers, use_value, use_values, answers_of,
  use_pointers-use_values,
}
use obs_operator.Sample.Fixtures.{first_key, second_key, stored_client, cached}

abbrev heap : Heap ResolvedClient
heap = record { next = 1; cell = λ _. some stored_client }

abbrev pointers : Pointers
pointers = (first_key.provider_config, record { key = first_key; resolved = 0 }) ∷ []

-- The caller's client, of another region.
abbrev spoilt : ResolvedClient
spoilt = record stored_client { region = "spoilt" }

abbrev uses : List Use
uses =
    got first_key spoilt
    ∷ stored first_key (record { handle = 7 }) spoilt
    ∷ got first_key spoilt
    ∷ stored second_key (record { handle = 8 }) spoilt
    ∷ got first_key spoilt
    ∷ got second_key spoilt
    ∷ invalidated first_key.provider_config
    ∷ got second_key spoilt
    ∷ []

abbrev answers : List Answer
answers =
    (some stored_client, [])
    ∷ (some (record stored_client { from_cache = true }), record { handle = 7 } ∷ [])
    ∷ (some stored_client, [])
    ∷ (some (new_resolved_client second_key (record { handle = 8 })), stored_client.obs ∷ [])
    ∷ (none, [])
    ∷ (some (new_resolved_client second_key (record { handle = 8 })), [])
    ∷ (none, record { handle = 8 } ∷ [])
    ∷ (none, [])
    ∷ []

uses-answers : use_values uses cached ≡ answers
unfolding use_values use_value get set invalidate_provider new_resolved_client
uses-answers = refl

pointers-reads : CacheReads 0 heap (some pointers) cached
pointers-reads = (
  (
    refl,
    (
      refl,
      record {
        object = stored_client;
        seen = record { from = omega arith; below = omega arith; stands = refl };
        reads = refl;
      },
    ),
  ),
  tt,
)

use_pointers-use_values_example :
    answers_of (use_pointers uses (some pointers) heap) ≡ some (use_values uses cached)
use_pointers-use_values_example =
    use_pointers-use_values uses heap (some pointers) cached pointers-reads
