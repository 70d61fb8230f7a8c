-- ===== src/Sample/Watching.antt =====
-- An API server that lists by index, and a manager in memory, for the tests.
use obs_operator.Base.{refl, ℕ, Option, none, some, List, [], ◌∷◌}
use obs_operator.Base.Select.{select}
use obs_operator.Errors.{GoError, Result, ok}
use obs_operator.Api.{Bucket, ProviderConfig}
use obs_operator.Services.{Services, Request, Reply, list_bucket_objects, list_provider_configs}
use obs_operator.Services.Action.{World}
use obs_operator.BucketController.Watch.Enqueue.{ListsBuckets, is_indexed}
use obs_operator.ProviderConfigController.Watch.Enqueue.{ListsProviderConfigs, is_filed}
use obs_operator.Main.Setup.{ManagerRequest, Runtime, Process, add_readyz_check}
use obs_operator.Sample
use obs_operator.Sample.{Store, services, secret, config, service_error}
use obs_operator.Sample.Fixtures.{bucket, remote, cached, here}

-- Two Buckets of which one refers to another ProviderConfig, and one ProviderConfig.
abbrev pub stored_buckets : Store → List Bucket
stored_buckets _ =
    bucket
    ∷ record bucket { spec = record bucket.spec { provider_config_ref = record { name = "aws" } } }
    ∷ []

abbrev pub stored_configs : Store → List ProviderConfig
stored_configs _ = config ∷ []

unfoldable pub perform_listing : (q : Request) → Store → Result (Reply q) × Store
unfolding Sample.perform
perform_listing (list_bucket_objects n m) s = (ok (select (is_indexed n m) (stored_buckets s)), s)
perform_listing (list_provider_configs n m) s = (ok (select (is_filed n m) (stored_configs s)), s)
perform_listing q s = Sample.perform secret q s

abbrev pub listing : Services
listing = record (services secret) { perform = perform_listing }

abbrev pub listing_world : World listing
listing_world = record { svc = remote; cache = cached; trace = [] }

pub listing-ListsBuckets : ListsBuckets listing stored_buckets
unfolding perform_listing
listing-ListsBuckets = record { at = λ n m s. refl }

pub listing-ListsProviderConfigs : ListsProviderConfigs listing stored_configs
unfolding perform_listing
listing-ListsProviderConfigs = record { at = λ n m s. refl }

-- A manager that refuses the readiness check, and one that takes all.
unfoldable pub refuse : ManagerRequest here → ℕ → Option GoError × ℕ
refuse (add_readyz_check _) n = (some (service_error 500 "Stopped"), n)
refuse _ n = (none, n)

abbrev pub refusing : Runtime here
refusing = record { State = ℕ; perform = refuse }

abbrev pub willing : Runtime here
willing = record { State = ℕ; perform = λ _ n. (none, n) }

abbrev pub idle : {R : Runtime here} → R.State → Process R
idle s = record { state = s; trace = [] }
