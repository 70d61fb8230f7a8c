-- ===== src/BucketController/Bounds/Rounds.antt =====
-- The requests of the loop that empties a bucket.
use obs_operator.Base.{
  String, ℕ, zero, suc, ◌+◌, ◌≤◌, ◌≡◌, sym, Bool, true, false, List, [], ◌∷◌, length, inl, inr,
  arith,
}
use mathlib.Core.Path.{subst}
use obs_operator.Errors.{Result, ok}
use obs_operator.Services.{Services, ObsClient, ObjectVersion}
use obs_operator.Services.Action.{World, Action, pure, fail}
use obs_operator.Services.Run.{Result-cases, handle_ok, handle_err}
use obs_operator.Services.Costs.{
  Costs, Costs-pure, Costs-fail, Costs-handle, Costs-if, cost_rules, Costs-check_context,
}
use obs_operator.BucketController.Destroy.{
  Progress, delete_page, delete_round, next_round, delete_all_objects,
}
use obs_operator.BucketController.Destroy.Emptying.{ListsAndDeletes, round_progress}

module _ (K : Services) (c : ObsClient) (n : String) where
  page-Costs :
      (truncated : Bool) (page : List ObjectVersion) → Costs 1 (delete_page K c n truncated page)
  unfolding delete_page
  page-Costs truncated [] = Costs-pure true
  page-Costs truncated (o ∷ os) =
      Costs-handle 1 0 _ _ _ (search cost_rules depth 8)
        (λ failures. Costs-if _ _ _ (Costs-fail _) (Costs-pure _)) (λ e. Costs-fail e)

  round-Costs : Costs 2 (delete_round K c n)
  unfolding delete_round
  round-Costs =
      Costs-handle 0 2 _ _ _ Costs-check_context
        (λ _.
          Costs-handle 1 1 _ _ _ (search cost_rules depth 8) (λ out. page-Costs _ _)
            (λ e. Costs-fail e))
        (λ e. Costs-fail e)

  module _ (objects : K.State → List ObjectVersion) (L : ListsAndDeletes K c n objects) where
    -- What the rounds behind the first one add, by what the first one says.
    later_rounds :
        (rest : Action K Progress) (w : World K) (done : Bool)
        → (delete_round K c n w).0 ≡ ok done
        → let v = (delete_round K c n w).1 in
          length (rest v).1.trace
            ≤ length v.trace + (2 + (length (objects v.svc) + length (objects v.svc)))
          → length (next_round K c n rest done v).1.trace
            ≤ length v.trace + (length (objects w.svc) + length (objects w.svc))
    unfolding next_round pure
    later_rounds rest w true e h = omega arith
    later_rounds rest w false e h =
        let less = round_progress K c n objects L w false e in omega (arith, h, less)

    -- Emptying a bucket takes at most two requests for each of its versions and delete markers and
    -- two more, however much fuel the loop has, if the service lists and deletes as
    -- `ListsAndDeletes` says.
    pub delete_all_objects-requests_le :
        (fuel : ℕ) (w : World K)
        → length (delete_all_objects K c n fuel w).1.trace
          ≤ length w.trace + (2 + (length (objects w.svc) + length (objects w.svc)))
    unfolding delete_all_objects pure fail
    delete_all_objects-requests_le zero w = omega arith
    delete_all_objects-requests_le (suc fuel) w =
        let rest = delete_all_objects K c n fuel in
        let v : World K = (delete_round K c n w).1 in
        let two = (round-Costs).at w in
        elim (Result-cases (delete_round K c n w).0) [
          | inl (done, e) ↦
              let later = later_rounds rest w done e (delete_all_objects-requests_le fuel v) in
              subst
                (λ (x : Result Progress × World K).
                  length x.1.trace
                  ≤ length w.trace + (2 + (length (objects w.svc) + length (objects w.svc))))
                (sym (handle_ok (delete_round K c n) (next_round K c n rest) fail w e))
                (omega (arith, later, two))
          | inr (x, e) ↦
              subst
                (λ (y : Result Progress × World K).
                  length y.1.trace
                  ≤ length w.trace + (2 + (length (objects w.svc) + length (objects w.svc))))
                (sym (handle_err (delete_round K c n) (next_round K c n rest) fail w e))
                (omega (arith, two))
        ]
