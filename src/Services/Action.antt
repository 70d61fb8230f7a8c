-- ===== src/Services/Action.antt =====
-- Go functions that call the services and may fail: a state-passing function over the services'
-- state and the client cache that the reconcilers share, with the requests made so far. `do` stops
-- at the first error, as `if err != nil { return err }` does.
use obs_operator.Base.{String, Option, none, some, List, [], ◌∷◌}
use obs_operator.Errors.{GoError, Result, ok, err, wrap}
use obs_operator.Services.{Services, ObsClient, Request, close_client, Reply}
use obs_operator.Provider.Cache.{Cache}

-- The requests that were made, the newest first.
pub record World (K : Services) : Type 0 where
  pub svc : K.State
  pub cache : Cache
  pub trace : List Request

abbrev pub Action : Services → Type 0 → Type 0
Action K A = World K → Result A × World K

module _ {K : Services} where
  unfoldable pub pure : {A : Type 0} → A → Action K A
  pure a w = (ok a, w)

  unfoldable pub fail : {A : Type 0} → GoError → Action K A
  fail e w = (err e, w)

  abbrev cases : {A B : Type 0} → Result A → (A → Action K B) → (GoError → Action K B) → Action K B
  cases (ok a) f g = f a
  cases (err e) f g = g e

  -- `v, err := m(); if err != nil { g(err) } else { f(v) }`
  unfoldable pub handle :
      {A B : Type 0} → Action K A → (A → Action K B) → (GoError → Action K B) → Action K B
  handle m f g w = let (r, w') = m w in cases r f g w'

  -- `return v, err` of values at hand.
  unfoldable pub from_result : {A : Type 0} → Result A → Action K A
  from_result (ok a) = pure a
  from_result (err e) = fail e

  unfoldable pub from_error : Option GoError → Action K (Unit {0})
  from_error none = pure tt
  from_error (some e) = fail e

  infixl 5 ◌>>=◌ ◌>>◌
  abbrev pub ◌>>=◌ : {A B : Type 0} → Action K A → (A → Action K B) → Action K B
  m >>= f = handle m f fail

  abbrev pub ◌>>◌ : {A B : Type 0} → Action K A → Action K B → Action K B
  m >> k = m >>= λ _. k

  -- Hands the error on as a value.
  abbrev pub attempt : {A : Type 0} → Action K A → Action K (Result A)
  attempt m = handle m (λ a. pure (ok a)) (λ e. pure (err e))

  -- `return fmt.Errorf(prefix + "%w", err)` on an error.
  abbrev pub wrapped : {A : Type 0} → String → Action K A → Action K A
  wrapped prefix m = handle m pure (λ e. fail (wrap prefix e))

  -- An error on which `f` decides: it becomes an error again or a value.
  abbrev pub on_error : {A : Type 0} → (GoError → Result A) → Action K A → Action K A
  on_error f m = handle m pure (λ e. from_result (f e))

  unfoldable pub read_world : Action K (World K)
  read_world w = (ok w, w)

  unfoldable pub set_cache : Cache → Action K (Unit {0})
  set_cache c w = (ok tt, record w { cache = c })

module _ (K : Services) where
  unfoldable pub call : (q : Request) → Action K (Reply q)
  call q w = let (r, s) = K.perform q w.svc in (r, record w { svc = s; trace = q ∷ w.trace })

  -- `if err := ctx.Err(); err != nil { return err }`
  abbrev pub check_context : Action K (Unit {0})
  check_context = read_world >>= λ w. from_error (K.ctx_err w.svc)

  -- `Close` gives no result.
  unfoldable pub close_clients : List ObsClient → Action K (Unit {0})
  close_clients [] = pure tt
  close_clients (c ∷ cs) = do attempt (call (close_client c)); close_clients cs

-- To unfold this is to unfold all of the above.
unfoldable pub running : Unit {0}
unfolding pure fail handle from_result from_error read_world set_cache call close_clients
running = tt
