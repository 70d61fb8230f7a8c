-- ===== src/Tests/Starting.antt =====
-- The properties of the start of the process and of the watches, at concrete inputs.
use obs_operator.Main.Options.{default_flags, manager_options}
use obs_operator.Main.Http2.{IsHardened, manager_options-IsHardened}
use obs_operator.Main.Setup.{request, then, setup_provider_config, setup_bucket}
use obs_operator.Main.Start.{main, or_exit, finish}
use obs_operator.Main.Order.{Runs, startup, main-Runs}
use obs_operator.Main.Gate.{main_started, traced}
use obs_operator.Base.{contains}
use obs_operator.Base.Select.{any}
use obs_operator.BucketController.Watch.{buckets_for_provider_config, bucket_request}
use obs_operator.BucketController.Watch.Enqueue.{
  refers, requests_of, buckets_for_provider_config-refers,
}
use obs_operator.ProviderConfigController.Watch.{
  provider_configs_for_secret, provider_config_request,
}
use obs_operator.ProviderConfigController.Watch.Enqueue.{
  names_secret, provider_configs_for_secret-names_secret,
}
use obs_operator.Sample.Watching.{
  listing, listing_world, stored_buckets, stored_configs, listing-ListsBuckets,
  listing-ListsProviderConfigs, refusing, willing, idle,
}
use obs_operator.BucketController.Watch.Updates.{AreAlike, bucket_update_passes-AreAlike}
use obs_operator.BucketController.Watch.{bucket_update_passes}
use obs_operator.Base.{◌↔◌}
use obs_operator.Sample.{meta}
use obs_operator.Sample.Fixtures.{remote}
use obs_operator.Base.{
  String, ==_refl, false, ◌≡◌, ◌≢◌, refl, some, [], arith, ◌==◌, nat_eq, string_eq, option_eq,
}
use obs_operator.Errors.{sentinel_eq}
use obs_operator.Api.{namespaced_name_eq}
use obs_operator.Provider.Cache.{cache_key_eq}
use obs_operator.Provider.Cache.Counts.{obs_client_eq}
use obs_operator.BucketController.Destroy.Emptying.{object_version_eq}
use obs_operator.BucketController.Acl.{grant_signature_eq}
use obs_operator.Sample.{config, meta}
use obs_operator.Sample.Fixtures.{here, bucket}

bucket_update_passes-AreAlike_example :
    bucket_update_passes (some bucket.metadata) (some (meta "data")) ≡ false
    ↔ AreAlike (bucket.metadata) (meta "data")
bucket_update_passes-AreAlike_example =
    bucket_update_passes-AreAlike (bucket.metadata) (meta "data")

manager_options-IsHardened_example : IsHardened default_flags (manager_options default_flags)
manager_options-IsHardened_example = manager_options-IsHardened default_flags

main-Runs_example :
    Runs
      (startup here 3 default_flags)
      (idle {R = refusing} 0)
      (main refusing 3 default_flags (idle 0))
main-Runs_example = main-Runs refusing 3 default_flags (idle 0)

main_started_example :
    (main willing 3 default_flags (idle 0)).1.trace ≡ traced (startup here 3 default_flags) []
unfolding main or_exit request setup_provider_config setup_bucket then finish
main_started_example = main_started willing 3 default_flags (idle 0) refl refl

not_empty : (s : String) → (s == "") ≡ false → s ≢ ""
not_empty s h e = ground (arith, ==_refl s)

buckets_for_provider_config-refers_example :
    contains
      (requests_of (buckets_for_provider_config listing (config.metadata) listing_world).0)
      (bucket_request bucket)
    ≡ any (refers (config.metadata) (bucket_request bucket)) (stored_buckets remote)
unfolding string_eq
buckets_for_provider_config-refers_example =
    buckets_for_provider_config-refers listing stored_buckets listing-ListsBuckets config.metadata
      (bucket_request bucket) listing_world (not_empty _ refl)

provider_configs_for_secret-names_secret_example :
    contains
      (requests_of (provider_configs_for_secret listing (meta "keys") listing_world).0)
      (provider_config_request config)
    ≡ any (names_secret (meta "keys") (provider_config_request config)) (stored_configs remote)
unfolding string_eq
provider_configs_for_secret-names_secret_example =
    provider_configs_for_secret-names_secret listing stored_configs listing-ListsProviderConfigs
      (meta "keys") (provider_config_request config) listing_world (not_empty _ refl)
