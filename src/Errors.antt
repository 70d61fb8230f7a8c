-- ===== src/Errors.antt =====
-- Go error values as the operator builds and inspects them: the sentinels that are declared with
-- `errors.New`, the chains of `fmt.Errorf` and `errors.Join`, the type `resolutionNotFoundError`
-- of internal/provider/provider_resolver.go, and the standard library's `errors.Is` and
-- `errors.As`. Errors of other packages are leaves: an `obs.ObsError` by the fields that are
-- read, any other by its text and its API reason.
use obs_operator.Base.{ℕ, String, ◌<>◌, Bool, false, ◌||◌, Option, none, some, Eq, ◌==◌}

-- The package variables of type `error`.
pub data Sentinel : Type 0 where
  provider_config_not_found credentials_secret_not_found missing_credentials : Sentinel
  invalid_endpoint bucket_already_exists provider_validation_failed : Sentinel

Sentinel-discrete : Discrete Sentinel
Sentinel-discrete = hlevel

instance unfoldable pub sentinel_eq : Eq Sentinel
unfolding Sentinel-discrete
sentinel_eq = record { dec = Sentinel-discrete }

-- The argument of each `errors.New`.
abbrev pub sentinel_text : Sentinel → String
sentinel_text provider_config_not_found = "provider config not found"
sentinel_text credentials_secret_not_found = "credentials secret not found"
sentinel_text missing_credentials = "missing provider credentials"
sentinel_text invalid_endpoint = "invalid OBS endpoint"
sentinel_text bucket_already_exists = "bucket already exists"
sentinel_text provider_validation_failed = "provider validation failed"

-- `obs.ObsError`: the fields that are read, and what its `Error()` returns.
pub record ObsError : Type 0 where
  pub status_code : ℕ
  pub code : String
  pub message : String
  pub text : String

-- Any other error that wraps nothing.
pub record Foreign : Type 0 where
  pub text : String
  pub reason : String

mutual
  pub data GoError : Type 0 where
    sentinel : Sentinel → GoError
    obs_error : ObsError → GoError
    foreign : Foreign → GoError
    -- `fmt.Errorf` with one `%w`: the formatted text and the wrapped error.
    wrap_error : String → GoError → GoError
    -- `fmt.Errorf` with several `%w`.
    wrap_errors : String → ErrorList → GoError
    -- `errors.Join`.
    join_error : ErrorList → GoError
    -- `resolutionNotFoundError`: its kind is one of the sentinels, and `Unwrap` gives its error.
    resolution_not_found : Sentinel → GoError → GoError

  pub data ErrorList : Type 0 where
    end : ErrorList
    also : GoError → ErrorList → ErrorList

-- `err.Error()`.
unfoldable mutual
  pub error_text : GoError → String
  error_text (sentinel s) = sentinel_text s
  error_text (obs_error o) = o.text
  error_text (foreign f) = f.text
  error_text (wrap_error m _) = m
  error_text (wrap_errors m _) = m
  error_text (join_error es) = join_text es
  error_text (resolution_not_found k e) = sentinel_text k <> ": " <> error_text e

  pub join_text : ErrorList → String
  join_text end = ""
  join_text (also e end) = error_text e
  join_text (also e (also f es)) = error_text e <> "\n" <> join_text (also f es)

-- `errors.Is(err, s)`: the error or one that it wraps is `s`, or says so by its `Is` method.
unfoldable mutual
  pub error_is : GoError → Sentinel → Bool
  error_is (sentinel k) s = k == s
  error_is (obs_error _) s = false
  error_is (foreign _) s = false
  error_is (wrap_error _ e) s = error_is e s
  error_is (wrap_errors _ es) s = any_is es s
  error_is (join_error es) s = any_is es s
  error_is (resolution_not_found k e) s = k == s || error_is e s

  pub any_is : ErrorList → Sentinel → Bool
  any_is end s = false
  any_is (also e es) s = error_is e s || any_is es s

abbrev or_else {ℓ} : {A : Type ℓ} → Option A → Option A → Option A
or_else none b = b
or_else (some a) _ = some a

-- `errors.As(err, &obsErr)` for a variable of type `obs.ObsError`: the first one of the tree.
unfoldable mutual
  pub error_as_obs : GoError → Option ObsError
  error_as_obs (sentinel _) = none
  error_as_obs (obs_error o) = some o
  error_as_obs (foreign _) = none
  error_as_obs (wrap_error _ e) = error_as_obs e
  error_as_obs (wrap_errors _ es) = first_obs es
  error_as_obs (join_error es) = first_obs es
  error_as_obs (resolution_not_found _ e) = error_as_obs e

  pub first_obs : ErrorList → Option ObsError
  first_obs end = none
  first_obs (also e es) = or_else (error_as_obs e) (first_obs es)

-- A call that returns a value and an error.
pub data Result {ℓ} (A : Type ℓ) : Type ℓ where
  ok : A → Result A
  err : GoError → Result A

-- `fmt.Errorf(prefix + "%w", err)`.
unfoldable pub wrap : String → GoError → GoError
unfolding error_text
wrap prefix e = wrap_error (prefix <> error_text e) e
