-- ===== src/BucketController/Reconcile/MissingConfig.antt =====
-- `Reconcile` of a Bucket whose ProviderConfig does not exist.
use obs_operator.Base.{ℕ, ◌≡◌, refl, ap, ◌∙◌, true, false, not, ◌&&◌, Option, none, some, inl, inr}
use obs_operator.Errors.{
  GoError, Result, err, resolution_not_found, provider_config_not_found, error_is, sentinel_eq,
}
use obs_operator.Api.{Bucket}
use obs_operator.Services.{Services, get_provider_config}
use obs_operator.Services.Action.{World, pure, fail, handle, call, from_result, ◌>>◌}
use obs_operator.Services.Run.{Result-cases, handle_err}
use obs_operator.Provider.Cache.{ResolvedClient}
use obs_operator.Provider.Resolver.{config_key, resolve_provider_config, resolve_bucket}
use obs_operator.BucketController.ErrorKinds.{
  is_user_correctable, is_user_correctable_type, ready_status_condition, failure_reason,
}
use obs_operator.BucketController.ErrorKinds.Chains.{IsChain, is_user_correctable-IsChain}
use obs_operator.BucketController.Status.{
  has_finalizer, update_bucket_status, patch_status, reported,
}
use obs_operator.BucketController.Destroy.{finished}
use obs_operator.BucketController.Lifecycle.{resolve_bucket_client}
use obs_operator.BucketController.Reconcile.{
  is_deleting, report, reconcile_bucket, reconcile_resolved,
}

-- The error of a resolution that finds no ProviderConfig.
abbrev pub missing_config : GoError → GoError
missing_config e = resolution_not_found provider_config_not_found e

missing_config-correctable :
    (e : GoError) → IsChain e → is_user_correctable (missing_config e) ≡ true
unfolding is_user_correctable_type error_is sentinel_eq
missing_config-correctable e c = is_user_correctable-IsChain (missing_config e) c

module _ (K : Services) (b : Bucket) where
  -- Reporting an error that is left to the user returns what the status write returns.
  pub report_correctable :
      (r : Option ResolvedClient) (e : GoError) (w : World K)
      → is_user_correctable e ≡ true
      → report K b r (some e) none w
        ≡ (update_bucket_status K b r (ready_status_condition K b (some e)) none >> pure finished) w
  unfolding report patch_status reported handle pure fail
  report_correctable r e w t =
      elim (Result-cases
        (update_bucket_status K b r (ready_status_condition K b (some e)) none w).0) [
          | inl (a, h) ↦ rw (h, t) refl
          | inr (x, h) ↦ rw h refl
        ]

  resolve_missing :
      (e : GoError) (w : World K)
      → (K.perform (get_provider_config (config_key K b)) w.svc).0 ≡ err e
      → K.is_not_found e ≡ true
      → resolve_bucket_client K true b w
        ≡ (err (missing_config e), (call K (get_provider_config (config_key K b)) w).1)
  unfolding resolve_bucket_client resolve_bucket resolve_provider_config handle call fail pure
      from_result
  resolve_missing e w h t = rw (h, t) refl

  -- A Bucket that is tracked, and whose ProviderConfig the API server does not find, gets its
  -- status written with the reason that the ProviderConfig is not found, and the reconcile returns
  -- what that write returns: the missing ProviderConfig is no error to retry. The server's error is
  -- supposed to have no joins.
  pub reconcile_bucket_missing :
      (fuel : ℕ) (e : GoError) (w : World K)
      → (is_deleting b && not (has_finalizer K b)) ≡ false
      → (K.perform (get_provider_config (config_key K b)) w.svc).0 ≡ err e
      → K.is_not_found e ≡ true
      → IsChain e
      → ((ready_status_condition K b (some (missing_config e))).reason ≡ "ProviderConfigNotFound")
        × (reconcile_bucket K true fuel b w
            ≡ (update_bucket_status K b none
                    (ready_status_condition K b (some (missing_config e)))
                    none
                  >> pure finished)
                (call K (get_provider_config (config_key K b)) w).1)
  unfolding reconcile_bucket ready_status_condition failure_reason error_is sentinel_eq
  reconcile_bucket_missing fuel e w tracked h t c =
      let gone = resolve_missing e w h t in
      let w1 = (call K (get_provider_config (config_key K b)) w).1 in
      (
        refl,
        rw tracked (
            handle_err (resolve_bucket_client K true b) (reconcile_resolved K fuel b)
              (λ x. report K b none (some x) none) w
              (ap (λ (y : Result ResolvedClient × World K). y.0) gone)
            ∙ ap
                (λ (y : Result ResolvedClient × World K).
                  report K b none (some (missing_config e)) none y.1)
                gone
            ∙ report_correctable none (missing_config e) w1 (missing_config-correctable e c)),
      )
