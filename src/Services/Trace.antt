-- ===== src/Services/Trace.antt =====
-- Which requests an action may make: one rule for each way to build an action.
use obs_operator.Base.{◌≡◌, refl, Bool, true, false, Option, none, some, List, [], ◌∷◌}
use obs_operator.Base.{if◌then◌else◌}
use obs_operator.Errors.{GoError, Result, ok, err}
use obs_operator.Services.{Services, ObsClient, Request, close_client}
use obs_operator.Services.Action.{
  World, Action, pure, fail, handle, from_result, from_error, read_world, set_cache, call,
  close_clients, on_error,
}
use obs_operator.Provider.Cache.{Cache}

abbrev pub All {ℓ κ} : {A : Type ℓ} → (A → Type κ) → List A → Type κ
All P [] = Unit
All P (x ∷ xs) = P x × All P xs

-- All that `m` requests, whether it returns a value or an error, is in `P`.
pub record Requests {K : Services} {A : Type 0} (P : Request → Type 0) (m : Action K A)
    : Type 0 where
  pub at : (w : World K) → All P w.trace → All P (m w).1.trace

module _ {K : Services} {P : Request → Type 0} where
  pub Requests-pure : {A : Type 0} (a : A) → Requests {K = K} P (pure a)
  unfolding pure
  Requests-pure a = record { at = λ w h. h }

  pub Requests-fail : {A : Type 0} (e : GoError) → Requests {K = K} {A = A} P (fail e)
  unfolding fail
  Requests-fail e = record { at = λ w h. h }

  pub Requests-handle :
      {A B : Type 0} (m : Action K A) (f : A → Action K B) (g : GoError → Action K B)
      → Requests P m
      → ((a : A) → Requests P (f a))
      → ((e : GoError) → Requests P (g e))
      → Requests P (handle m f g)
  unfolding handle
  Requests-handle {A} {B} m f g hm hf hg = record { at = λ w h. go (m w).0 (m w).1 (hm.at w h) }
    where
      go :
          (r : Result A) (w : World K)
          → All P w.trace
          → All P (handle {K = K} (λ _. (r, w)) f g w).1.trace
      go (ok a) w h = (hf a).at w h
      go (err e) w h = (hg e).at w h

  pub Requests-read_world : Requests {K = K} P read_world
  unfolding read_world
  Requests-read_world = record { at = λ w h. h }

  pub Requests-set_cache : (c : Cache) → Requests {K = K} P (set_cache c)
  unfolding set_cache
  Requests-set_cache c = record { at = λ w h. h }

  pub Requests-from_result : {A : Type 0} (r : Result A) → Requests {K = K} P (from_result r)
  unfolding from_result
  Requests-from_result (ok a) = Requests-pure a
  Requests-from_result (err e) = Requests-fail e

  pub Requests-from_error : (e : Option GoError) → Requests {K = K} P (from_error e)
  unfolding from_error
  Requests-from_error none = Requests-pure tt
  Requests-from_error (some e) = Requests-fail e

  pub Requests-on_error :
      {A : Type 0} (f : GoError → Result A) (m : Action K A)
      → Requests P m
      → Requests P (on_error f m)
  Requests-on_error f m h =
      Requests-handle m pure (λ e. from_result (f e)) h (λ a. Requests-pure a)
        (λ e. Requests-from_result (f e))

  pub Requests-if :
      {A : Type 0} (b : Bool) (m n : Action K A)
      → (b ≡ true → Requests P m)
      → (b ≡ false → Requests P n)
      → Requests P (if b then m else n)
  Requests-if true m n hm hn = hm refl
  Requests-if false m n hm hn = hn refl

  pub Requests-call : (q : Request) → P q → Requests P (call K q)
  unfolding call
  Requests-call q p = record { at = λ w h. (p, h) }

pub ruleset trace_rules = (
  Requests-pure, Requests-fail, Requests-on_error, Requests-handle, Requests-read_world,
  Requests-set_cache, Requests-from_result, Requests-from_error, Requests-if, Requests-call,
)

-- Closing clients requests nothing but `Close`.
pub Requests-close_clients :
    (K : Services) (P : Request → Type 0) (cs : List ObsClient)
    → ((c : ObsClient) → P (close_client c))
    → Requests P (close_clients K cs)
unfolding close_clients
Requests-close_clients K P [] h = Requests-pure tt
Requests-close_clients K P (c ∷ cs) h =
    Requests-handle _ _ _
      (Requests-handle _ _ _ (Requests-call _ (h c)) (λ a. Requests-pure _) (λ e. Requests-pure _))
      (λ a. Requests-close_clients K P cs h) (λ e. Requests-fail e)
