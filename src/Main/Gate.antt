-- ===== src/Main/Gate.antt =====
-- What has been asked for when the manager is started.
use obs_operator.Base.{ℕ, ◌≡◌, refl, ◌∙◌, Bool, true, false, ◌||◌, List, [], ◌∷◌, arith}
use obs_operator.Services.{Services}
use obs_operator.Main.Options.{Flags}
use obs_operator.Main.Setup.{Runtime, Process, ManagerRequest, start}
use obs_operator.Main.Start.{Exit, main}
use obs_operator.Main.Order.{Runs, done, failed, passed, startup, main-Runs}

neither : (a b : Bool) → a ≡ false → b ≡ false → (a || b) ≡ false
neither a b h k = ground arith

clash : {A : Type 0} (b : Bool) → b ≡ false → b ≡ true → A
clash b h k = cc

module _ {K : Services} where
  abbrev pub is_start : ManagerRequest K → Bool
  is_start start = true
  is_start _ = false

  abbrev pub has_start : List (ManagerRequest K) → Bool
  has_start [] = false
  has_start (q ∷ qs) = is_start q || has_start qs

  -- A trace after the listed requests.
  abbrev pub traced : List (ManagerRequest K) → List (ManagerRequest K) → List (ManagerRequest K)
  traced [] t = t
  traced (q ∷ qs) t = traced qs (q ∷ t)

  -- Nothing but the last of the requests may be the start.
  abbrev StartsLast : List (ManagerRequest K) → Type 0
  StartsLast [] = Unit
  StartsLast (q ∷ []) = Unit
  StartsLast (q ∷ q' ∷ qs) = (is_start q ≡ false) × StartsLast (q' ∷ qs)

  trace-Runs :
      {R : Runtime K} (qs : List (ManagerRequest K)) (p : Process R) (out : Exit × Process R)
      → Runs qs p out
      → StartsLast qs
      → has_start p.trace ≡ false
      → has_start out.1.trace ≡ true
      → out.1.trace ≡ traced qs p.trace
  trace-Runs _ _ _ (done p) l f h = refl
  trace-Runs _ _ _ (failed q [] p e _) l f h = refl
  trace-Runs _ _ _ (failed q (q' ∷ qs) p e _) (n, l) f h =
      clash (is_start q || has_start p.trace) (neither (is_start q) (has_start p.trace) n f) h
  trace-Runs _ _ _ (passed q [] p _ _ (done _)) l f h = refl
  trace-Runs _ _ _ (passed q (q' ∷ qs) p out _ r) (n, l) f h =
      trace-Runs (q' ∷ qs) _ out r l (neither (is_start q) (has_start p.trace) n f) h

-- Once the manager has been started, the process has asked for all else before, in order: nothing
-- is left out, both controllers stand with their indexes, and both health checks are in place.
pub main_started :
    {K : Services} (R : Runtime K) (fuel : ℕ) (flags : Flags) (p : Process R)
    → p.trace ≡ []
    → has_start (main R fuel flags p).1.trace ≡ true
    → (main R fuel flags p).1.trace ≡ traced (startup K fuel flags) []
main_started {K} R fuel flags p e h =
    trace-Runs (startup K fuel flags) p _ (main-Runs R fuel flags p)
      (refl, (refl, (refl, (refl, (refl, (refl, (refl, (refl, tt)))))))) (rw e refl) h
    ∙ rw e refl
