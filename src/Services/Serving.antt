-- ===== src/Services/Serving.antt =====
-- Actions that come to an end with a value, and what holds of the services' state behind them: one
-- rule for each way to build an action.
use obs_operator.Base.{◌≡◌, ◌⊎◌, inl, inr, refl, sym, ap, ◌∙◌, Bool, true, false, if◌then◌else◌}
use mathlib.Core.Path.{subst}
use obs_operator.Errors.{GoError, Result, ok, err}
use obs_operator.Services.{Services, Request, Reply}
use obs_operator.Services.Action.{
  World, Action, pure, handle, from_result, read_world, call, on_error,
}
use obs_operator.Services.Run.{handle_ok}

-- From every state in `I` the action returns a value, and leaves a state in `J` of that value.
pub record Leads {K : Services} {A : Type 0} (I : K.State → Type 0) (J : A → K.State → Type 0)
    (m : Action K A) : Type 0 where
  pub at : (w : World K) → I w.svc → (a : A) × ((m w).0 ≡ ok a) × J a (m w).1.svc

-- The action returns a value and keeps `I`.
abbrev pub Serves : {K : Services} {A : Type 0} → (K.State → Type 0) → Action K A → Type 0
Serves I m = Leads I (λ _. I) m

module _ {K : Services} {I : K.State → Type 0} where
  pub Leads-pure :
      {A : Type 0} {J : A → K.State → Type 0} (a : A)
      → ((s : K.State) → I s → J a s)
      → Leads {K = K} I J (pure a)
  unfolding pure
  Leads-pure a h = record { at = λ w i. (a, refl, h w.svc i) }

  pub Leads-handle :
      {A B : Type 0} {J : A → K.State → Type 0} {L : B → K.State → Type 0} (m : Action K A)
      (f : A → Action K B) (g : GoError → Action K B)
      → Leads I J m
      → ((a : A) → Leads (J a) L (f a))
      → Leads I L (handle m f g)
  Leads-handle {A} {B} {J} {L} m f g hm hf = record {
    at = λ w i.
        let (a, e, j) = hm.at w i in
        let (b, e', l) = (hf a).at (m w).1 j in
        let there = handle_ok m f g w e in
        (
          b,
          ap (λ (r : Result B × World K). r.0) there ∙ e',
          subst (λ (r : Result B × World K). L b r.1.svc) (sym there) l,
        );
  }

  pub Leads-if :
      {A : Type 0} {J : A → K.State → Type 0} (b : Bool) (m n : Action K A)
      → (b ≡ true → Leads I J m)
      → (b ≡ false → Leads I J n)
      → Leads I J (if b then m else n)
  Leads-if true m n hm hn = hm refl
  Leads-if false m n hm hn = hn refl

  pub Leads-from :
      {A : Type 0} {I' : K.State → Type 0} {J : A → K.State → Type 0} {m : Action K A}
      → ((s : K.State) → I' s → I s)
      → Leads I J m
      → Leads I' J m
  Leads-from weaker h = record { at = λ w i. h.at w (weaker w.svc i) }

  pub Serves-pure : {A : Type 0} (a : A) → Serves {K = K} I (pure a)
  Serves-pure a = Leads-pure a (λ s i. i)

  pub Serves-handle :
      {A B : Type 0} (m : Action K A) (f : A → Action K B) (g : GoError → Action K B)
      → Serves I m
      → ((a : A) → Serves I (f a))
      → Serves I (handle m f g)
  Serves-handle m f g hm hf = Leads-handle m f g hm hf

  pub Serves-on_error :
      {A : Type 0} (f : GoError → Result A) (m : Action K A) → Serves I m → Serves I (on_error f m)
  Serves-on_error f m h = Serves-handle m pure (λ e. from_result (f e)) h (λ a. Serves-pure a)

  -- A call whose error, if it fails, `f` takes for a value.
  pub Serves-tolerated :
      (q : Request) (f : GoError → Result (Reply q))
      → ((s : K.State)
          → I s
          → (((v : Reply q) × ((K.perform q s).0 ≡ ok v))
              ⊎ ((e : GoError) × ((K.perform q s).0 ≡ err e) × ((a : Reply q) × (f e ≡ ok a))))
            × I (K.perform q s).1)
      → Serves I (on_error f (call K q))
  unfolding handle pure call from_result
  Serves-tolerated q f h = record {
    at = λ w i.
        let (r, kept) = h w.svc i in
        elim r [
          | inl (v, e) ↦ (v, rw e refl, rw e kept)
          | inr (x, e, (a, taken)) ↦ (a, rw (e, taken) refl, rw (e, taken) kept)
        ];
  }

  pub Serves-if :
      {A : Type 0} (b : Bool) (m n : Action K A)
      → (b ≡ true → Serves I m)
      → (b ≡ false → Serves I n)
      → Serves I (if b then m else n)
  Serves-if b m n hm hn = Leads-if b m n hm hn

  pub Serves-read_world : Serves {K = K} I read_world
  unfolding read_world
  Serves-read_world = record { at = λ w i. (w, refl, i) }

  pub Leads-call :
      (q : Request) {J : Reply q → K.State → Type 0}
      → ((s : K.State) → I s → (v : Reply q) × ((K.perform q s).0 ≡ ok v) × J v (K.perform q s).1)
      → Leads I J (call K q)
  unfolding call
  Leads-call q h = record { at = λ w i. h w.svc i }

pub ruleset serving_rules =
    (Serves-pure, Serves-on_error, Serves-handle, Serves-if, Serves-read_world)
