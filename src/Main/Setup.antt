-- ===== src/Main/Setup.antt =====
-- `SetupWithManager` of both reconcilers. controller-runtime's manager is a parameter, a `Runtime`:
-- what it is asked for is a `ManagerRequest`, answered by an error or nil.
use obs_operator.Base.{ℕ, String, Bool, true, false, Option, none, some, List, ◌∷◌}
use obs_operator.Errors.{GoError}
use obs_operator.Api.{NamespacedName, ObjectMeta}
use obs_operator.Services.{Services}
use obs_operator.Services.Action.{Action, ◌>>◌, pure}
use obs_operator.BucketController.Watch.{
  ClientObject, bucket_update_passes, provider_config_ref_index, buckets_for_provider_config,
}
use obs_operator.BucketController.Reconcile
use obs_operator.ProviderConfigController.Watch.{
  credentials_secret_ref_index, provider_configs_for_secret,
}
use obs_operator.ProviderConfigController.Reconcile as Config
use obs_operator.Main.Options.{
  ManagerOptions, ObjectKind, bucket_kind, provider_config_kind, secret_kind,
}

-- The events of controller-runtime; an update has the metadata of both states, if there are any.
pub data Event : Type 0 where
  created deleted generic : ObjectMeta → Event
  updated : Option ObjectMeta → Option ObjectMeta → Event

-- `bucketEventPredicate()`: `predicate.Funcs` with an `UpdateFunc` alone lets all else pass.
unfoldable pub bucket_event_predicate : Event → Bool
bucket_event_predicate (updated old new) = bucket_update_passes old new
bucket_event_predicate _ = true

-- What a controller is built of: the kind in `For` with its predicates, the kind in `Watches` with
-- the function of `EnqueueRequestsFromMapFunc`, its name, and the reconciler.
pub record Controller (K : Services) : Type 0 where
  pub name : String
  pub kind : ObjectKind
  pub passes : Event → Bool
  pub watched : ObjectKind
  pub requests_for : ObjectMeta → Action K (List NamespacedName)
  pub only_metadata : Bool
  pub reconcile : NamespacedName → Action K (Unit {0})

pub data ManagerRequest (K : Services) : Type 0 where
  get_config : ManagerRequest K
  new_manager : ManagerOptions → ManagerRequest K
  index_field : ObjectKind → String → (ClientObject → List String) → ManagerRequest K
  complete : Controller K → ManagerRequest K
  add_healthz_check add_readyz_check : String → ManagerRequest K
  start : ManagerRequest K

-- The library, on a state that the model does not look into.
pub record Runtime (K : Services) : Type 1 where
  pub State : Type 0
  pub perform : ManagerRequest K → State → Option GoError × State

-- The state of the process, with the requests made so far, the newest first.
pub record Process {K : Services} (R : Runtime K) : Type 0 where
  pub state : R.State
  pub trace : List (ManagerRequest K)

-- A function that returns an error.
abbrev pub Setup : {K : Services} → Runtime K → Type 0
Setup R = Process R → Option GoError × Process R

module _ {K : Services} {R : Runtime K} where
  unfoldable pub request : ManagerRequest K → Setup R
  request q p = let (e, s) = R.perform q p.state in (e, record p { state = s; trace = q ∷ p.trace })

  abbrev if_nil : Option GoError → Setup R → Setup R
  if_nil none n q = n q
  if_nil (some e) n q = (some e, q)

  -- `if err := m; err != nil { return err }; return n`
  unfoldable pub then : Setup R → Setup R → Setup R
  then m n p = let (e, q) = m p in if_nil e n q

abbrev pub provider_config_credentials_secret_index : String
provider_config_credentials_secret_index = ".spec.credentialsSecretRef.name"

abbrev pub bucket_provider_config_ref_index : String
bucket_provider_config_ref_index = ".spec.providerConfigRef.name"

module _ (K : Services) where
  unfoldable pub provider_config_controller : Controller K
  provider_config_controller = record {
    name = "providerconfig";
    kind = provider_config_kind;
    passes = λ _. true;
    watched = secret_kind;
    requests_for = provider_configs_for_secret K;
    only_metadata = true;
    reconcile = Config.reconcile K true;
  }

  -- The fuel is that of the loop that empties a bucket.
  unfoldable pub bucket_controller : ℕ → Controller K
  bucket_controller fuel = record {
    name = "bucket";
    kind = bucket_kind;
    passes = bucket_event_predicate;
    watched = provider_config_kind;
    requests_for = buckets_for_provider_config K;
    only_metadata = false;
    reconcile = λ key. Reconcile.reconcile K true fuel key >> pure tt;
  }

module _ {K : Services} (R : Runtime K) where
  -- `(*ProviderConfigReconciler).SetupWithManager`
  unfoldable pub setup_provider_config : Setup R
  setup_provider_config =
      then
        (request (
          index_field provider_config_kind provider_config_credentials_secret_index
            credentials_secret_ref_index))
        (request (complete (provider_config_controller K)))

  -- `(*BucketReconciler).SetupWithManager`
  unfoldable pub setup_bucket : ℕ → Setup R
  setup_bucket fuel =
      then
        (request
          (index_field bucket_kind bucket_provider_config_ref_index provider_config_ref_index))
        (request (complete (bucket_controller K fuel)))
