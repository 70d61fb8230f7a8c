-- ===== src/Tests/Reporting.antt =====
-- The properties of errors and of what a reconcile reports, at concrete inputs.
use obs_operator.Sample.{meta}
use obs_operator.Sample.{constants, private_acl}
use obs_operator.BucketController.Reconcile.Conflict.{reconcile_owned_conflict}
use obs_operator.BucketController.Reconcile.{reconcile_owned}
use obs_operator.BucketController.Lifecycle.{create_error, create_input}
use obs_operator.BucketController.Status.{without_finalizer}
use obs_operator.BucketController.ErrorKinds.{is_create_bucket_conflict}
use obs_operator.Services.{patch_bucket, on_bucket, create_bucket}
use obs_operator.Errors.{GoError, error_as_obs}
use obs_operator.Sample.Fixtures.{taken, taken_world, perform_taken}
use obs_operator.BucketController.Reconcile.MissingConfig.{missing_config, reconcile_bucket_missing}
use obs_operator.Services.{get_provider_config}
use obs_operator.Services.Action.{call, pure, ◌>>◌}
use obs_operator.Provider.Resolver.{config_key}
use obs_operator.BucketController.Destroy.{finished}
use obs_operator.Sample.Fixtures.{lost, lost_world, perform_lost}
use obs_operator.Base.{false, ◌≡◌, refl, true, none, some, nat_eq, string_eq, option_eq}
use obs_operator.Errors.{
  ok, wrap_error, sentinel, also, end, bucket_already_exists, sentinel_eq, missing_credentials,
  error_is,
}
use obs_operator.Api.{namespaced_name_eq}
use obs_operator.Services.Action.{running}
use obs_operator.Provider.Cache.{cache_key_eq}
use obs_operator.Provider.Cache.Counts.{obs_client_eq}
use obs_operator.BucketController.Reconcile.{reconcile_bucket}
use obs_operator.BucketController.Destroy.Emptying.{object_version_eq}
use obs_operator.BucketController.Acl.{grant_signature_eq}
use obs_operator.BucketController.Status.{update_bucket_status}
use obs_operator.BucketController.Status.Idempotence.{written_bucket, update_bucket_status_again}
use obs_operator.BucketController.ErrorKinds.{
  all_user_correctable, unwrapped_verdict, is_user_correctable, is_user_correctable_type,
  ready_status_condition,
}
use obs_operator.BucketController.ErrorKinds.Chains.{
  AreCorrectable, is_user_correctable-IsChain, join_error-AreCorrectable,
}
use obs_operator.Sample
use obs_operator.Sample.{Store, services, secret, blank_secret, config, client, meta}
use obs_operator.Sample.Laws.{set_condition_once}
use obs_operator.Sample.Fixtures.{here, bucket, world, resolved_client}

is_user_correctable-IsChain_example :
    is_user_correctable (wrap_error "read: " (sentinel missing_credentials))
    ≡ is_user_correctable_type (wrap_error "read: " (sentinel missing_credentials))
is_user_correctable-IsChain_example =
    is_user_correctable-IsChain (wrap_error "read: " (sentinel missing_credentials)) tt

join_error-AreCorrectable_example :
    AreCorrectable (also (sentinel missing_credentials) (also (sentinel bucket_already_exists) end))
unfolding is_user_correctable all_user_correctable unwrapped_verdict is_user_correctable_type
    error_is sentinel_eq
join_error-AreCorrectable_example =
    join_error-AreCorrectable "two errors: "
      (also (sentinel missing_credentials) (also (sentinel bucket_already_exists) end))
      (tt, (tt, tt)) refl

update_bucket_status_again_example :
    update_bucket_status here
      (written_bucket here set_condition_once 10 11 bucket none
        (ready_status_condition here bucket none)
        none)
      none
      (ready_status_condition here bucket none)
      none
      world
    ≡ (ok tt, world)
update_bucket_status_again_example =
    update_bucket_status_again here set_condition_once 10 11 bucket none
      (ready_status_condition here bucket none) none world

reconcile_bucket_missing_example :
    ((ready_status_condition lost bucket
        (some (missing_config (Sample.service_error 404 "NotFound")))).reason
      ≡ "ProviderConfigNotFound")
    × (reconcile_bucket lost true 3 bucket lost_world
        ≡ (update_bucket_status lost bucket none
                (ready_status_condition lost bucket
                  (some (missing_config (Sample.service_error 404 "NotFound"))))
                none
              >> pure finished)
            (call lost (get_provider_config (config_key lost bucket)) lost_world).1)
unfolding perform_lost string_eq
reconcile_bucket_missing_example =
    reconcile_bucket_missing lost bucket 3 (Sample.service_error 404 "NotFound") lost_world refl
      refl refl tt

-- What the API server and OBS are asked for on a create conflict.
abbrev conflict : GoError
conflict = Sample.service_error 409 "BucketAlreadyExists"

reconcile_owned_conflict_example :
    reconcile_owned taken bucket resolved_client
      (record { exists = false; metadata = none })
      taken_world
    ≡ (update_bucket_status taken
            (without_finalizer taken bucket)
            (some resolved_client)
            (ready_status_condition taken
              (without_finalizer taken bucket)
              (some (create_error taken bucket conflict)))
            none
          >> pure finished)
        (call taken
          (patch_bucket bucket (without_finalizer taken bucket))
          (call taken
            (on_bucket client "data" (create_bucket (create_input taken bucket "eu-de")))
            taken_world).1).1
unfolding running perform_taken Sample.perform is_create_bucket_conflict error_as_obs string_eq
    nat_eq
reconcile_owned_conflict_example =
    reconcile_owned_conflict taken bucket resolved_client
      (record { exists = false; metadata = none }) conflict (without_finalizer taken bucket)
      taken_world refl refl refl refl
