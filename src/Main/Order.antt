-- ===== src/Main/Order.antt =====
-- In which order the process asks for what it needs, and what an error does.
use obs_operator.Base.{ℕ, ◌≡◌, refl, sym, none, some, List, [], ◌∷◌, inl, inr, Option-cases}
use mathlib.Core.Path.{subst}
use obs_operator.Errors.{GoError}
use obs_operator.Services.{Services}
use obs_operator.BucketController.Watch.{provider_config_ref_index}
use obs_operator.ProviderConfigController.Watch.{credentials_secret_ref_index}
use obs_operator.Main.Options.{Flags, manager_options, provider_config_kind, bucket_kind}
use obs_operator.Main.Setup.{
  Runtime, Process, Setup, ManagerRequest, request, then, get_config, new_manager, index_field,
  complete, add_healthz_check, add_readyz_check, start, setup_provider_config, setup_bucket,
  provider_config_credentials_secret_index, bucket_provider_config_ref_index,
  provider_config_controller, bucket_controller,
}
use obs_operator.Main.Start.{Exit, exits, returns, Program, or_exit, finish, main}

-- All that a process needs, in order.
abbrev pub startup : (K : Services) → ℕ → Flags → List (ManagerRequest K)
startup K fuel flags =
    get_config
    ∷ new_manager (manager_options flags)
    ∷ index_field provider_config_kind provider_config_credentials_secret_index
        credentials_secret_ref_index
    ∷ complete (provider_config_controller K)
    ∷ index_field bucket_kind bucket_provider_config_ref_index provider_config_ref_index
    ∷ complete (bucket_controller K fuel)
    ∷ add_healthz_check "healthz"
    ∷ add_readyz_check "readyz"
    ∷ start
    ∷ []

module _ {K : Services} {R : Runtime K} where
  abbrev asked : ManagerRequest K → Process R → Process R
  asked q p = record { state = (R.perform q p.state).1; trace = q ∷ p.trace }

  -- A run that makes the listed requests up to the first that is answered by an error.
  pub data Runs : List (ManagerRequest K) → Process R → Exit × Process R → Type 0 where
    done : (p : Process R) → Runs [] p (returns, p)
    failed :
        (q : ManagerRequest K) (qs : List (ManagerRequest K)) (p : Process R) (e : GoError)
        → (R.perform q p.state).0 ≡ some e
        → Runs (q ∷ qs) p (exits 1, asked q p)
    passed :
        (q : ManagerRequest K) (qs : List (ManagerRequest K)) (p : Process R)
        (out : Exit × Process R)
        → (R.perform q p.state).0 ≡ none
        → Runs qs (asked q p) out
        → Runs (q ∷ qs) p out

  -- What follows a request runs from wherever the request leads.
  or_exit-Runs :
      (q : ManagerRequest K) (qs : List (ManagerRequest K)) (k : Program R)
      → ((p : Process R) → Runs qs p (k p))
      → (p : Process R) → Runs (q ∷ qs) p (or_exit (request q) k p)
  unfolding or_exit request
  or_exit-Runs q qs k h p = elim (Option-cases (R.perform q p.state).0) [
    | inl e ↦ rw e (passed q qs p _ e (h (asked q p)))
    | inr (x, e) ↦ rw e (failed q qs p x e)
  ]

  or_exit-then :
      (m n : Setup R) (k : Program R) (p : Process R)
      → or_exit (then m n) k p ≡ or_exit m (or_exit n k) p
  unfolding or_exit then
  or_exit-then m n k p = elim (Option-cases (m p).0) [ inl e ↦ rw e refl | inr (x, e) ↦ rw e refl ]

-- The process makes the requests of `startup` in order, from any state: the configuration, the
-- manager, for each controller its index before it is built, both health checks, and the start. It
-- stops with status 1 at the first that is answered by an error, and returns only if none is.
pub main-Runs :
    {K : Services} (R : Runtime K) (fuel : ℕ) (flags : Flags) (p : Process R)
    → Runs (startup K fuel flags) p (main R fuel flags p)
unfolding main setup_provider_config setup_bucket finish
main-Runs R fuel flags = or_exit-Runs _ _ _ (
    or_exit-Runs _ _ _ λ p. subst (Runs _ p) (sym (or_exit-then _ _ _ p)) (
      or_exit-Runs _ _ _
        (or_exit-Runs _ _ _ λ p'. subst (Runs _ p') (sym (or_exit-then _ _ _ p')) (
          or_exit-Runs _ _ _
            (or_exit-Runs _ _ _ (or_exit-Runs _ _ _ (or_exit-Runs _ _ _ (or_exit-Runs _ _ _ done))))
            p'))
        p))
