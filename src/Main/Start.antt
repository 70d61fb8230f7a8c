-- ===== src/Main/Start.antt =====
-- `main` of cmd/main.go: one request of the manager after the other, each followed by
-- `os.Exit(1)` on an error. The flags are what `flag.Parse` left; `ctrl.GetConfigOrDie` exits with
-- status 1 by itself.
use obs_operator.Base.{ℕ, Option, none, some}
use obs_operator.Errors.{GoError}
use obs_operator.Services.{Services}
use obs_operator.Main.Options.{Flags, manager_options}
use obs_operator.Main.Setup.{
  Runtime, Process, Setup, request, get_config, new_manager, add_healthz_check, add_readyz_check,
  start, setup_provider_config, setup_bucket,
}

-- How the process ends.
pub data Exit : Type 0 where
  exits : ℕ → Exit
  returns : Exit

abbrev pub Program : {K : Services} → Runtime K → Type 0
Program R = Process R → Exit × Process R

module _ {K : Services} {R : Runtime K} where
  abbrev unless_error : Option GoError → Program R → Program R
  unless_error none k q = k q
  unless_error (some _) k q = (exits 1, q)

  -- `if err := m; err != nil { os.Exit(1) }`
  unfoldable pub or_exit : Setup R → Program R → Program R
  or_exit m k p = let (e, q) = m p in unless_error e k q

  unfoldable pub finish : Program R
  finish p = (returns, p)

-- Both reconcilers get one resolver over one cache: the cache of the `World` that they run on.
unfoldable pub main : {K : Services} (R : Runtime K) → ℕ → Flags → Program R
main R fuel flags = or_exit (request get_config) (
    or_exit (request (new_manager (manager_options flags))) (
      or_exit (setup_provider_config R) (
        or_exit (setup_bucket R fuel) (
          or_exit (request (add_healthz_check "healthz"))
            (or_exit (request (add_readyz_check "readyz")) (or_exit (request start) finish))))))
