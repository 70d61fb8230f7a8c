-- ===== src/BucketController/ErrorKinds/Chains.antt =====
-- `isUserCorrectableBucketError` on errors that wrap one error each, and on joins of such errors.
use obs_operator.Base.{
  String, ◌≡◌, refl, ◌∙◌, sym, Bool, true, false, inl, inr, arith, Bool-cases, ◌||◌, ◌&&◌, ◌==◌,
}
use obs_operator.Errors.{
  GoError, ErrorList, sentinel, obs_error, foreign, wrap_error, wrap_errors, join_error,
  resolution_not_found, end, also, error_is, error_as_obs, sentinel_eq, provider_config_not_found,
  credentials_secret_not_found, missing_credentials, invalid_endpoint, bucket_already_exists,
}
use obs_operator.BucketController.ErrorKinds.{
  is_user_correctable_type, is_joined, unwrapped_verdict, is_user_correctable, all_user_correctable,
  is_non_retryable_request_error,
}

-- An error without `errors.Join` and without several `%w`.
abbrev pub IsChain : GoError → Type 0
IsChain (wrap_error m e) = IsChain e
IsChain (resolution_not_found k e) = IsChain e
IsChain (wrap_errors m es) = ⊥
IsChain (join_error es) = ⊥
IsChain _ = Unit

is_joined-IsChain : (e : GoError) → IsChain e → is_joined e ≡ false
is_joined-IsChain (sentinel s) c = refl
is_joined-IsChain (obs_error o) c = refl
is_joined-IsChain (foreign f) c = refl
is_joined-IsChain (wrap_error m e) c = refl
is_joined-IsChain (resolution_not_found k e) c = refl
is_joined-IsChain (wrap_errors _ _) c = elim c [ ]
is_joined-IsChain (join_error _) c = elim c [ ]

-- A wrapper is of the correctable types when its error is.
type-wrap_error :
    (m : String) (e : GoError)
    → is_user_correctable_type (wrap_error m e) ≡ is_user_correctable_type e
unfolding is_user_correctable_type error_is is_non_retryable_request_error error_as_obs
type-wrap_error m e = refl

-- A disjunction of more is false only where that of fewer is.
or_mono :
    (k a rest rest' : Bool)
    → (rest || (k || a)) ≡ false
    → (rest ≡ false → rest' ≡ false)
    → (rest' || a) ≡ false
or_mono false false false rest' h f = rw (f refl) refl
or_mono false true false rest' h f = ground arith
or_mono true a false rest' h f = ground arith
or_mono k a true rest' h f = ground arith

type-resolution :
    (k : _) (e : GoError)
    → is_user_correctable_type (resolution_not_found k e) ≡ false
    → is_user_correctable_type e ≡ false
unfolding is_user_correctable_type error_is is_non_retryable_request_error error_as_obs
type-resolution k e h = or_mono false (is_non_retryable_request_error e) _ _ h (λ h1.
    or_mono (k == bucket_already_exists) (error_is e bucket_already_exists) _ _ h1 (λ h2.
      or_mono (k == invalid_endpoint) (error_is e invalid_endpoint) _ _ h2 (λ h3.
        or_mono (k == missing_credentials) (error_is e missing_credentials) _ _ h3 (λ h4.
          or_mono (k == credentials_secret_not_found) (error_is e credentials_secret_not_found) _ _
            h4
            (λ h5.
              or_mono (k == provider_config_not_found) (error_is e provider_config_not_found) false
                false h5 (λ x. x))))))

-- An error that wraps one error at most at each level is user-correctable exactly if it is of the
-- correctable types.
pub is_user_correctable-IsChain :
    (e : GoError) → IsChain e → is_user_correctable e ≡ is_user_correctable_type e
unfolding is_user_correctable unwrapped_verdict
is_user_correctable-IsChain (sentinel s) c = refl
is_user_correctable-IsChain (obs_error o) c = refl
is_user_correctable-IsChain (foreign f) c = refl
is_user_correctable-IsChain (wrap_error m e) c =
    elim (Bool-cases (is_user_correctable_type (wrap_error m e))) [
      | inl t ↦ rw (is_joined-IsChain e c, t) refl
      | inr t ↦
          rw (is_joined-IsChain e c, t, is_user_correctable-IsChain e c)
            (sym (type-wrap_error m e) ∙ t)
    ]
is_user_correctable-IsChain (resolution_not_found k e) c =
    elim (Bool-cases (is_user_correctable_type (resolution_not_found k e))) [
      | inl t ↦ rw (is_joined-IsChain e c, t) refl
      | inr t ↦
          rw (is_joined-IsChain e c, t, is_user_correctable-IsChain e c) (type-resolution k e t)
    ]
is_user_correctable-IsChain (wrap_errors _ _) c = elim c [ ]
is_user_correctable-IsChain (join_error _) c = elim c [ ]

-- Every error of a list is a chain.
abbrev pub AreChains : ErrorList → Type 0
AreChains end = Unit
AreChains (also e es) = IsChain e × AreChains es

-- Every error of a list is of the correctable types.
abbrev pub AreCorrectable : ErrorList → Type 0
AreCorrectable end = Unit
AreCorrectable (also e es) = (is_user_correctable_type e ≡ true) × AreCorrectable es

and_true : (a b : Bool) → (a && b) ≡ true → (a ≡ true) × (b ≡ true)
and_true true b h = (refl, h)
and_true false b h = ground arith

all_user_correctable-AreCorrectable :
    (es : ErrorList) → AreChains es → all_user_correctable es ≡ true → AreCorrectable es
unfolding all_user_correctable
all_user_correctable-AreCorrectable end _ h = tt
all_user_correctable-AreCorrectable (also e end) (c, _) h =
    (sym (is_user_correctable-IsChain e c) ∙ h, tt)
all_user_correctable-AreCorrectable (also e (also f es)) (c, cs) h =
    let (a, b) = and_true (is_user_correctable e) (all_user_correctable (also f es)) h in
    (
      sym (is_user_correctable-IsChain e c) ∙ a,
      all_user_correctable-AreCorrectable (also f es) cs b,
    )

-- A join of such errors that is wrapped once is user-correctable only if each of them is of the
-- correctable types.
pub join_error-AreCorrectable :
    (m : String) (es : ErrorList)
    → AreChains es
    → is_user_correctable (wrap_error m (join_error es)) ≡ true
    → AreCorrectable es
unfolding is_user_correctable unwrapped_verdict
join_error-AreCorrectable m es c h = all_user_correctable-AreCorrectable es c h
