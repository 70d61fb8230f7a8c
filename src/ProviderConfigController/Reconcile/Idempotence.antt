-- ===== src/ProviderConfigController/Reconcile/Idempotence.antt =====
-- `updateProviderConfigStatus` behind its own patch.
use obs_operator.Base.{
  ℕ, String, ◌≡◌, refl, sym, true, false, some, ==_refl, is_some, string_eq, nat_eq,
}
use obs_operator.Errors.{ok}
use obs_operator.Api.{ProviderConfig, ProviderConfigStatus, Condition}
use obs_operator.Services.{Services}
use obs_operator.Services.Action.{World, pure, handle, read_world}
use obs_operator.BucketController.Status.Idempotence.{conditions_equal_self, SetsOnce}
use obs_operator.ProviderConfigController.Reconcile.{status_changed, next_status, update_status}

same_status :
    (K : Services) (s t : ProviderConfigStatus)
    → s.observed_generation ≡ t.observed_generation
    → s.observed_provider_revision ≡ t.observed_provider_revision
    → is_some s.last_validation_time ≡ true
    → s.conditions ≡ t.conditions
    → status_changed K s t ≡ false
unfolding status_changed
same_status K s t a b c d =
    rw
      (
        a,
        b,
        c,
        d,
        ==_refl t.observed_generation,
        ==_refl t.observed_provider_revision,
        conditions_equal_self t.conditions,
      )
      refl

module _ (K : Services) (L : SetsOnce K) where
  -- The configuration as the API server keeps it behind a status write at the time `validated`.
  abbrev pub written_config : ℕ → ℕ → ProviderConfig → Condition → String → ProviderConfig
  written_config now validated c k revision = record c {
    status = record (next_status K now c k revision) { last_validation_time = some validated };
  }

  status_settled :
      (now validated later : ℕ) (c : ProviderConfig) (k : Condition) (revision : String)
      → status_changed K
          (written_config now validated c k revision).status
          (next_status K later (written_config now validated c k revision) k revision)
        ≡ false
  unfolding next_status
  status_settled now validated later c k revision =
      same_status K _ _ refl refl refl (sym (L now later c.status.conditions k))

  -- When a status was written for a condition and a provider revision, then updating the written
  -- configuration with the same two requests nothing and changes nothing, provided that setting a
  -- condition again changes nothing. So a validation with the same outcome leaves
  -- `lastValidationTime` as it is, at the time of the last change.
  pub update_status_again :
      (now validated : ℕ) (c : ProviderConfig) (k : Condition) (revision : String) (w : World K)
      → update_status K (written_config now validated c k revision) k revision w ≡ (ok tt, w)
  unfolding update_status handle read_world pure
  update_status_again now validated c k revision w =
      rw (status_settled now validated (K.now w.svc) c k revision) refl
