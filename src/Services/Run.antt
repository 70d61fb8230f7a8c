-- ===== src/Services/Run.antt =====
-- Running an action: what a result says of the parts that gave it.
use obs_operator.Base.{String, ◌≡◌, refl, ap, ◌∙◌, none, some, inl, inr, ◌⊎◌, arith}
use obs_operator.Errors.{GoError, Result, ok, err}
use obs_operator.Services.{Services, Request}
use obs_operator.Services.Action.{
  World, Action, pure, fail, handle, wrapped, on_error, from_result, call, ◌>>=◌, from_error,
  read_world, check_context,
}

pub Result-cases :
    {A : Type 0} (r : Result A) → ((a : A) × (r ≡ ok a)) ⊎ ((e : GoError) × (r ≡ err e))
Result-cases (ok a) = inl (a, refl)
Result-cases (err e) = inr (e, refl)

pub ok_inj : {A : Type 0} (a b : A) → ok a ≡ ok b → a ≡ b
ok_inj a b h = cc

module _ {K : Services} {A B : Type 0} (m : Action K A) (f : A → Action K B) where
  pub handle_ok :
      (g : GoError → Action K B) (w : World K) {a : A}
      → (m w).0 ≡ ok a
      → handle m f g w ≡ f a (m w).1
  unfolding handle
  handle_ok g w h = rw h

  pub handle_err :
      (g : GoError → Action K B) (w : World K) {e : GoError}
      → (m w).0 ≡ err e
      → handle m f g w ≡ g e (m w).1
  unfolding handle
  handle_err g w h = rw h

  -- A block that returns has run its first part to a value and goes on from there.
  pub bind-eq-ok :
      (w : World K) {b : B}
      → ((m >>= f) w).0 ≡ ok b
      → (a : A) × ((m w).0 ≡ ok a) × ((m >>= f) w ≡ f a (m w).1)
  unfolding fail
  bind-eq-ok w h = elim (Result-cases (m w).0) [
    | inl (a, e) ↦ (a, e, handle_ok fail w e)
    | inr (x, e) ↦ cc (ap (λ (p : Result B × World K). p.0) (handle_err fail w e))
  ]

module _ {K : Services} {A : Type 0} (prefix : String) (m : Action K A) (w : World K) where
  pub world-wrapped : (wrapped prefix m w).1 ≡ (m w).1
  unfolding handle pure fail
  world-wrapped = elim (Result-cases (m w).0) [ inl (a, e) ↦ rw e | inr (x, e) ↦ rw e ]

  pub wrapped-eq-ok : {a : A} → (wrapped prefix m w).0 ≡ ok a → (m w).0 ≡ ok a
  unfolding handle pure fail
  wrapped-eq-ok h = ground arith

module _ {K : Services} {A : Type 0} (f : GoError → Result A) (m : Action K A) (w : World K) where
  pub world-on_error : (on_error f m w).1 ≡ (m w).1
  unfolding handle pure fail from_result
  world-on_error = elim (Result-cases (m w).0) [
    | inl (a, e) ↦ rw e
    | inr (x, e) ↦ elim (Result-cases (f x)) [ inl (a, i) ↦ rw (e, i) | inr (y, i) ↦ rw (e, i) ]
  ]

  pub on_error-eq-ok :
      {a : A}
      → (on_error f m w).0 ≡ ok a
      → ((m w).0 ≡ ok a) ⊎ ((e : GoError) × ((m w).0 ≡ err e) × (f e ≡ ok a))
  unfolding handle pure fail from_result
  on_error-eq-ok h = elim (Result-cases (m w).0) [
    | inl (a, e) ↦ inl (e ∙ rw e at h)
    | inr (x, e) ↦ inr (x, e, ground arith)
  ]

-- A call runs the service on its state.
pub svc-call :
    (K : Services) (q : Request) (w : World K) → (call K q w).1.svc ≡ (K.perform q w.svc).1
unfolding call
svc-call K q w = refl

pub result-call :
    (K : Services) (q : Request) (w : World K) → (call K q w).0 ≡ (K.perform q w.svc).0
unfolding call
result-call K q w = refl

pub world-check_context : (K : Services) (w : World K) → (check_context K w).1 ≡ w
unfolding handle read_world from_error pure fail
world-check_context K w = elim (K.ctx_err w.svc) as (λ e. (from_error {K = K} e w).1 ≡ w) [
  | none ↦ refl
  | some e ↦ refl
]
