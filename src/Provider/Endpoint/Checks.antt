-- ===== src/Provider/Endpoint/Checks.antt =====
-- What `ResolveEndpoint` of internal/provider/provider_resolver.go lets through.
use obs_operator.Base.{String, Bool, ◌≡◌, ◌⊎◌, refl, true, false, inl, inr, ==_refl}
use mathlib.Core.Path.{subst}
use obs_operator.Base.{◌==◌, string_eq, Bool-cases, eq-of-==, not, ◌&&◌, ◌||◌}
use obs_operator.Base.Text.{trim_right}
use obs_operator.Errors.{
  GoError, Result, ok, err, invalid_endpoint, error_is, error_text, sentinel_eq,
}
use obs_operator.Services.{Services, Url}
use obs_operator.Services.Run.{Result-cases}
use obs_operator.Provider.Credentials.{sentinel_error}
use obs_operator.Provider.Endpoint.{
  endpoint_candidate, checked_endpoint, resolve_endpoint, is_slash,
}

-- The URLs that are let through: https, a host, the path empty or a slash, no query and no fragment.
-- The other parts of a `url.URL`, the user information and `ForceQuery` among them, are free.
abbrev pub IsHttpsHost : Url → Type 0
IsHttpsHost u =
    (u.scheme ≡ "https")
    × ((u.host == "") ≡ false)
    × (((u.path == "") || (u.path == "/")) ≡ true)
    × (u.raw_query ≡ "")
    × (u.fragment ≡ "")

is_same : {s t : String} → s ≡ t → (s == t) ≡ true
is_same {s} {t} e = subst (λ x. (s == x) ≡ true) e (==_refl s)

error_is-sentinel_error :
    (m : String) → error_is (sentinel_error invalid_endpoint m) invalid_endpoint ≡ true
unfolding sentinel_error error_is sentinel_eq
error_is-sentinel_error m = refl

module _ (K : Services) where
  -- What a check decides.
  abbrev Verdict : Url → Result String → Type 0
  Verdict u (ok s) =
      IsHttpsHost u
      × (s
          ≡ trim_right is_slash
              (K.url_string (record u { path = ""; raw_query = ""; fragment = "" })))
  Verdict u (err e) = (error_is e invalid_endpoint ≡ true) × ¬ IsHttpsHost u

  -- A check that refuses, because `b` is not as it is for a URL that is let through.
  refused :
      (u : Url) (m : String) (b c : Bool)
      → b ≡ c
      → (IsHttpsHost u → b ≡ not c)
      → Verdict u (err (sentinel_error invalid_endpoint m))
  refused u m b true is needs = (error_is-sentinel_error m, λ h. clash is (needs h))
    where
      clash : b ≡ true → b ≡ false → ⊥
      clash i j = cc
  refused u m b false is needs = (error_is-sentinel_error m, λ h. clash is (needs h))
    where
      clash : b ≡ false → b ≡ true → ⊥
      clash i j = cc

  -- The tests behind scheme, host and path.
  tail-Verdict :
      (u : Url)
      → (u.scheme == "https") ≡ true
      → (u.host == "") ≡ false
      → (not (u.path == "") && not (u.path == "/")) ≡ false
      → ((u.path == "") || (u.path == "/")) ≡ true
      → Verdict u (checked_endpoint K u)
  unfolding checked_endpoint
  tail-Verdict u a b c d = elim (Bool-cases (u.raw_query == "")) [
    | inr q ↦
        rw (a, b, c, q)
          (refused u "endpoint query and fragment are not supported" (u.raw_query == "") false q
            (λ (_, _, _, e, _). is_same e))
    | inl q ↦ elim (Bool-cases (u.fragment == "")) [
      | inr f ↦
          rw (a, b, c, q, f)
            (refused u "endpoint query and fragment are not supported" (u.fragment == "") false f
              (λ (_, _, _, _, e). is_same e))
      | inl f ↦ rw (a, b, c, q, f) ((eq-of-== _ _ a, b, d, eq-of-== _ _ q, eq-of-== _ _ f), refl)
    ]
  ]

  checked_endpoint-Verdict : (u : Url) → Verdict u (checked_endpoint K u)
  unfolding checked_endpoint
  checked_endpoint-Verdict u = elim (Bool-cases (u.scheme == "https")) [
    | inr a ↦ rw a (
        refused u "endpoint scheme must be https" (u.scheme == "https") false a
          (λ (e, _, _, _, _). is_same e))
    | inl a ↦ elim (Bool-cases (u.host == "")) [
      | inl b ↦
          rw (a, b)
            (refused u "endpoint host is required" (u.host == "") true b (λ (_, e, _, _, _). e))
      | inr b ↦ elim (Bool-cases (u.path == "")) [
        | inl c ↦ tail-Verdict u a b (rw c refl) (rw c refl)
        | inr c ↦ elim (Bool-cases (u.path == "/")) [
          | inl d ↦ tail-Verdict u a b (rw (c, d) refl) (rw (c, d) refl)
          | inr d ↦
              rw (a, b, c, d)
                (refused u "endpoint path must be empty" ((u.path == "") || (u.path == "/")) false
                  (rw (c, d) refl) (λ (_, _, e, _, _). e))
        ]
      ]
    ]
  ]

  -- What the text `candidate` resolves to: if it parses as a URL that is let through, the text of
  -- that URL with path, query and fragment emptied, without slashes at its end, and otherwise an
  -- error.
  abbrev pub EndpointVerdict : String → Result String → Type 0
  EndpointVerdict candidate (ok s) =
      (u : Url) × (K.url_parse candidate ≡ ok u)
      × IsHttpsHost u
      × (s
          ≡ trim_right is_slash
              (K.url_string (record u { path = ""; raw_query = ""; fragment = "" })))
  EndpointVerdict candidate (err e) =
      (error_is e invalid_endpoint ≡ true)
      × (((x : GoError) × (K.url_parse candidate ≡ err x))
          ⊎ ((u : Url) × (K.url_parse candidate ≡ ok u) × ¬ IsHttpsHost u))

  from-Verdict :
      (candidate : String) (u : Url) (r : Result String)
      → K.url_parse candidate ≡ ok u
      → Verdict u r
      → EndpointVerdict candidate r
  from-Verdict candidate u (ok s) h v = (u, h, v.0, v.1)
  from-Verdict candidate u (err e) h v = (v.0, inr (u, h, v.1))

  -- A region and an endpoint resolve exactly if the text that is made of them parses as a URL whose
  -- scheme is https, which has a host, whose path is empty or a slash, and whose query and fragment
  -- are empty. They resolve to the text of that URL, its path, query and fragment emptied and all
  -- its other parts, such as user information, as they were parsed, without slashes at its end.
  -- Otherwise the error is `ErrInvalidEndpoint`.
  pub resolve_endpoint-EndpointVerdict :
      (region endpoint : String)
      → EndpointVerdict (endpoint_candidate region endpoint) (resolve_endpoint K region endpoint)
  unfolding resolve_endpoint
  resolve_endpoint-EndpointVerdict region endpoint =
      elim (Result-cases (K.url_parse (endpoint_candidate region endpoint))) [
        | inl (u, h) ↦
            rw (h, resolve_endpoint, EndpointVerdict)
              (from-Verdict _ u _ h (checked_endpoint-Verdict u))
        | inr (e, h) ↦
            rw (h, resolve_endpoint, EndpointVerdict)
              (error_is-sentinel_error (error_text e), inl (e, h))
      ]
