-- ===== src/Sample/Fixtures.antt =====
-- Concrete resources, worlds and cache contents for the tests.
use obs_operator.Errors.{Result, err}
use obs_operator.Services.{Request, Reply, get_provider_config, on_bucket, create_bucket}
use obs_operator.Base.{◌<>◌, String, true, false, none, some, [], ◌∷◌, nat_eq, string_eq, option_eq}
use obs_operator.Base.Dict.{Dict}
use obs_operator.Errors.{sentinel_eq}
use obs_operator.Api.{Bucket, namespaced_name_eq}
use obs_operator.Services.{Services, ObsClient}
use obs_operator.Services.Action.{World}
use obs_operator.Provider.Cache.{CacheKey, Cache, Clients, ResolvedClient, cache_key_eq}
use obs_operator.Provider.Cache.Counts.{obs_client_eq}
use obs_operator.Provider.Cache.Ownership.{Pool}
use obs_operator.BucketController.Destroy.Emptying.{object_version_eq}
use obs_operator.BucketController.Acl.{grant_signature_eq}
use obs_operator.BucketController.Status.{bucket_finalizer}
use obs_operator.Sample
use obs_operator.Sample.{Store, services, secret, blank_secret, config, client, meta}

abbrev pub here : Services
here = services secret

abbrev pub blank : Services
blank = services blank_secret

-- A Bucket that has our finalizer.
abbrev pub bucket : Bucket
bucket = record {
  metadata = record (meta "data") { finalizers = bucket_finalizer ∷ [] };
  spec = record {
    provider_config_ref = record { name = "otc" };
    storage_class = "";
    acl = "";
    versioning = true;
    parallel_fs = false;
    enterprise_project_id = "";
    tags = some (("env", "prod") ∷ []);
    force_destroy = true;
    logging = none;
    server_side_encryption = some (record { kms_key_id = "k"; kms_project_id = "" });
  };
  status = record {
    observed_generation = 0;
    region = "";
    bucket_domain_name = "";
    bucket_version = "";
    last_sync_time = none;
    conditions = [];
  };
}

-- The remote bucket, with other settings and two versions.
abbrev pub remote : Store
remote = record {
  settings = record {
    storage_class = "COLD";
    acl = none;
    versioning = "Suspended";
    tags = [];
    logging = none;
    encryption = none;
  };
  objects = record { key = "a"; version_id = "1" } ∷ record { key = "b"; version_id = "1" } ∷ [];
  exists = true;
}

abbrev pub first_key : CacheKey
first_key = record {
  provider_config = record { namespace = "team"; name = "otc" };
  provider_uid = "u1";
  credentials_secret = record { namespace = "team"; name = "keys" };
  secret_uid = "u2";
  credentials_hash = "h1";
  region = "eu-de";
  endpoint = "https://obs.eu-de.otc.t-systems.com";
}

abbrev pub second_key : CacheKey
second_key = record first_key { credentials_hash = "h2" }

abbrev pub stored_client : ResolvedClient
stored_client = record {
  obs = client;
  provider_config = first_key.provider_config;
  credentials_secret = first_key.credentials_secret;
  region = "eu-de";
  endpoint = "https://obs.eu-de.otc.t-systems.com";
  provider_revision = "";
  from_cache = false;
}

abbrev pub cached_clients : Clients
cached_clients =
    (first_key.provider_config, record { key = first_key; resolved = stored_client }) ∷ []

abbrev pub cached : Cache
cached = some cached_clients

abbrev pub world : World here
world = record { svc = remote; cache = cached; trace = [] }

abbrev pub blank_world : World blank
blank_world = record { svc = remote; cache = cached; trace = [] }

-- What `config` resolves to, behind a cache with other credentials.
abbrev pub resolved_client : ResolvedClient
resolved_client = record stored_client {
  provider_revision =
      "team\0otc\0u1\0" <> "2\0team\0keys\0u2\0"
      <> "7\0eu-de\0https://obs.eu-de.otc.t-systems.com\0";
}

-- The tags of a resource, out of order.
abbrev pub two_tags : Dict String String
two_tags = ("team", "a") ∷ ("env", "prod") ∷ []

-- The remote bucket as `bucket` asks.
abbrev pub settled_world : World here
settled_world = record {
  svc = record {
    settings = record {
      storage_class = "STANDARD";
      acl = some Sample.private_acl;
      versioning = "Enabled";
      tags = record { key = "env"; value = "prod" } ∷ [];
      logging = none;
      encryption =
          some (record { sse_algorithm = "kms"; kms_master_key_id = "k"; project_id = "" });
    };
    objects = [];
    exists = true;
  };
  cache = none;
  trace = [];
}

-- Two reconcilers have each built a client; the second to store closes the client of the first.
abbrev pub first_client : ObsClient
first_client = record { handle = 1 }

abbrev pub pool : Pool
pool = record {
  clients =
      (second_key.provider_config, record { key = second_key; resolved = second_client }) ∷ [];
  pending = [];
  made = client ∷ first_client ∷ [];
  closed = first_client ∷ [];
}
  where
    second_client : ResolvedClient
    second_client = record {
      obs = client;
      provider_config = first_key.provider_config;
      credentials_secret = first_key.credentials_secret;
      region = "eu-de";
      endpoint = "https://obs.eu-de.otc.t-systems.com";
      provider_revision = "";
      from_cache = false;
    }

-- The services behind an API server that has no ProviderConfig.
unfoldable pub perform_lost : (q : Request) → Store → Result (Reply q) × Store
unfolding Sample.perform
perform_lost (get_provider_config n) s = (err (Sample.service_error 404 "NotFound"), s)
perform_lost q s = Sample.perform secret q s

abbrev pub lost : Services
lost = record (services secret) { perform = perform_lost; is_not_found = λ e. true }

abbrev pub lost_world : World lost
lost_world = record { svc = remote; cache = cached; trace = [] }

-- The services behind an OBS where the bucket belongs to another account.
unfoldable pub perform_taken : (q : Request) → Store → Result (Reply q) × Store
unfolding Sample.perform
perform_taken (on_bucket c n (create_bucket i)) s =
    (err (Sample.service_error 409 "BucketAlreadyExists"), s)
perform_taken q s = Sample.perform secret q s

abbrev pub taken : Services
taken = record (services secret) { perform = perform_taken }

abbrev pub taken_world : World taken
taken_world = record { svc = remote; cache = cached; trace = [] }
