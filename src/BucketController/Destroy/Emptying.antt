-- ===== src/BucketController/Destroy/Emptying.antt =====
-- `deleteAllBucketObjects` against a service that lists and deletes as documented.
use obs_operator.Base.{
  ℕ, zero, suc, ◌+◌, ◌≤◌, ◌<◌, String, ◌≡◌, refl, sym, ◌≢◌, ◌∙◌, ap, Bool, true,
}
use obs_operator.Base.{false, not, ◌&&◌, List, [], ◌∷◌, ◌++◌, arith, Eq, ==_refl, contains}
use obs_operator.Base.{string_discrete, length, ltb, if◌then◌else◌}
use mathlib.Core.Path.{subst}
use mathlib.Core.List.{append_assoc}
use obs_operator.Errors.{Result, ok}
use obs_operator.Services.{
  Services, ObsClient, ObjectVersion, ListVersionsOutput, on_bucket, list_versions, delete_objects,
}
use obs_operator.Services.Action.{World, Action, pure, fail, wrapped, call, check_context, ◌>>=◌}
use obs_operator.Services.Run.{
  bind-eq-ok, world-wrapped, wrapped-eq-ok, result-call, world-check_context,
}
use obs_operator.BucketController.Destroy.{
  Progress, finished, unfinished, deletion_errors, page_objects, delete_page, delete_round,
  next_round, delete_all_objects,
}

ObjectVersion-discrete : Discrete ObjectVersion
ObjectVersion-discrete = hlevel string_discrete

instance unfoldable pub object_version_eq : Eq ObjectVersion
unfolding ObjectVersion-discrete string_discrete
object_version_eq = record { dec = ObjectVersion-discrete }

-- The objects that are not among the first.
unfoldable pub without : List ObjectVersion → List ObjectVersion → List ObjectVersion
without os [] = []
without os (x ∷ xs) = let rest = without os xs in if contains os x then rest else x ∷ rest

-- The part of a bucket's versions and delete markers behind a page.
abbrev pub Behind : List ObjectVersion → List ObjectVersion → Bool → Type 0
Behind page all truncated =
    (rest : List ObjectVersion) × (all ≡ page ++ rest)
    × (page ≡ [] → rest ≡ [])
    × (truncated ≡ false → rest ≡ [])

-- Listing gives a first page, an empty one only of an empty bucket, and says whether more follow;
-- a deletion without object errors removes what it was given, and neither adds anything.
pub record ListsAndDeletes (K : Services) (c : ObsClient) (n : String)
    (objects : K.State → List ObjectVersion) : Type 0 where
  pub lists :
      (s : K.State) (out : ListVersionsOutput)
      → (K.perform (on_bucket c n list_versions) s).0 ≡ ok out
      → Behind (page_objects out) (objects s) out.is_truncated
  pub keeps : (s : K.State) → objects (K.perform (on_bucket c n list_versions) s).1 ≡ objects s
  pub deletes :
      (s : K.State) (os : List ObjectVersion)
      → (K.perform (on_bucket c n (delete_objects os)) s).0 ≡ ok 0
      → objects (K.perform (on_bucket c n (delete_objects os)) s).1 ≡ without os (objects s)

length-append : (xs ys : List ObjectVersion) → length (xs ++ ys) ≡ length xs + length ys
length-append [] ys = omega arith
length-append (x ∷ xs) ys = omega (arith, length-append xs ys)

contains-append :
    (xs : List ObjectVersion) (x : ObjectVersion) (ys : List ObjectVersion)
    → contains (xs ++ x ∷ ys) x ≡ true
contains-append [] x ys = rw (==_refl x)
contains-append (y ∷ xs) x ys = ground (arith, contains-append xs x ys)

-- What stands behind the deleted page is all that can be left.
length-without_le : (os xs : List ObjectVersion) → length (without os xs) ≤ length xs
unfolding without
length-without_le os [] = omega arith
length-without_le os (x ∷ xs) = ground (arith, length-without_le os xs)

length-without-append :
    (front page rest : List ObjectVersion)
    → length (without (front ++ page) (page ++ rest)) ≤ length rest
unfolding without
length-without-append front [] rest = length-without_le _ rest
length-without-append front (x ∷ page) rest =
    let e = append_assoc front (x ∷ []) page in
    rw (contains-append front x page) (
      subst (λ os. length (without os (page ++ rest)) ≤ length rest) e
        (length-without-append (front ++ x ∷ []) page rest))

nil_of_length : (xs : List ObjectVersion) → length xs ≤ 0 → xs ≡ []
nil_of_length [] h = refl
nil_of_length (x ∷ xs) h = absurd (omega arith)

-- What a round has done to the objects, by what it says.
abbrev Progressed : Bool → List ObjectVersion → List ObjectVersion → Type 0
Progressed true before after = after ≡ []
Progressed false before after = length after < length before

progressed :
    (done truncated : Bool) (o : ObjectVersion) (os rest after : List ObjectVersion)
    → done ≡ (ltb (length (o ∷ os)) 1000 && not truncated)
    → (truncated ≡ false → rest ≡ [])
    → length after ≤ length rest
    → Progressed done ((o ∷ os) ++ rest) after
progressed true truncated o os rest after d complete h =
    nil_of_length after (subst (λ r. length after ≤ length r) (complete (ground arith)) h)
progressed false truncated o os rest after d complete h = omega (arith, length-append os rest)

module _ (K : Services) (c : ObsClient) (n : String) (objects : K.State → List ObjectVersion)
    (L : ListsAndDeletes K c n objects) where
  -- The list that is left when a page was deleted.
  left_of_page :
      (s : K.State) (page rest : List ObjectVersion)
      → objects s ≡ page ++ rest
      → (K.perform (on_bucket c n (delete_objects page)) s).0 ≡ ok 0
      → length (objects (K.perform (on_bucket c n (delete_objects page)) s).1) ≤ length rest
  left_of_page s page rest e h = rw (L.deletes s page h, e) (length-without-append [] page rest)

  -- The end of a round behind the deletion call.
  verdict : Bool → List ObjectVersion → ℕ → Action K Bool
  verdict truncated page failures =
      if ltb 0 failures
      then fail (deletion_errors failures)
      else pure (ltb (length page) 1000 && not truncated)

  verdict_ok :
      (truncated : Bool) (page : List ObjectVersion) (failures : ℕ) (w : World K) (done : Bool)
      → (verdict truncated page failures w).0 ≡ ok done
      → (failures ≡ 0)
        × (done ≡ (ltb (length page) 1000 && not truncated))
        × ((verdict truncated page failures w).1 ≡ w)
  unfolding verdict pure fail
  verdict_ok truncated page failures w done h = ground arith

  page_progress :
      (w : World K) (truncated : Bool) (page : List ObjectVersion) (done : Bool)
      → Behind page (objects w.svc) truncated
      → (delete_page K c n truncated page w).0 ≡ ok done
      → Progressed done (objects w.svc) (objects (delete_page K c n truncated page w).1.svc)
  unfolding delete_page pure verdict call
  page_progress w truncated [] true (rest, e, nothing, complete) h = e ∙ nothing refl
  page_progress w truncated [] false (rest, e, nothing, complete) h = cc
  page_progress w truncated (o ∷ os) done (rest, e, nothing, complete) h =
      let page = o ∷ os in
      let m =
        wrapped "delete bucket object versions: " (call K (on_bucket c n (delete_objects page))) in
      let (k, e1, e2) = bind-eq-ok m (verdict truncated page) w h in
      let (no_failure, d, same) = verdict_ok truncated page k (m w).1 done (rw e2 at h) in
      let deleted =
        wrapped-eq-ok _ (call K (on_bucket c n (delete_objects page))) w (rw no_failure at e1) in
      let there = ap (λ (p : Result Bool × World K). p.1) e2 ∙ same ∙ world-wrapped _ _ w in
      subst (λ (v : World K). Progressed done (objects w.svc) (objects v.svc)) (sym there)
        (rw e (
          progressed done truncated o os rest _ d complete
            (left_of_page w.svc page rest e (rw result-call at deleted))))

  -- A round from a world whose context is not done: it has emptied the bucket if it says so, and
  -- else there is less than before.
  pub round_progress :
      (w : World K) (done : Bool)
      → (delete_round K c n w).0 ≡ ok done
      → Progressed done (objects w.svc) (objects (delete_round K c n w).1.svc)
  unfolding delete_round call
  round_progress w done h =
      let list = wrapped "list bucket object versions: " (call K (on_bucket c n list_versions)) in
      let rest =
        λ (out : ListVersionsOutput). delete_page K c n out.is_truncated (page_objects out) in
      let (t, e1, e2) = bind-eq-ok (check_context K) (λ _. list >>= rest) w h in
      let e3 = rw world-check_context at e2 in
      let (out, e4, e5) = bind-eq-ok list rest w (rw e3 at h) in
      let v = (list w).1 in
      let listed = wrapped-eq-ok _ (call K (on_bucket c n list_versions)) w e4 in
      let unchanged : objects v.svc ≡ objects w.svc =
        ap (λ (u : World K). objects u.svc) (world-wrapped _ _ w) ∙ L.keeps w.svc in
      let behind =
        subst (λ os. Behind (page_objects out) os out.is_truncated) (sym unchanged)
          (L.lists w.svc out listed) in
      let turn = e3 ∙ e5 in
      subst (λ (r : Result Bool × World K). Progressed done (objects w.svc) (objects r.1.svc))
        (sym turn)
        (subst (λ os. Progressed done os (objects (rest out v).1.svc)) unchanged
          (page_progress v out.is_truncated (page_objects out) done behind (rw turn at h)))

  -- The end of a round, given what the remaining rounds do from there.
  after_round :
      (rest : Action K Progress) (w : World K) (done : Bool)
      → (delete_round K c n w).0 ≡ ok done
      → (((rest (delete_round K c n w).1).0 ≡ ok finished)
          → objects (rest (delete_round K c n w).1).1.svc ≡ [])
      → (next_round K c n rest done (delete_round K c n w).1).0 ≡ ok finished
      → objects (next_round K c n rest done (delete_round K c n w).1).1.svc ≡ []
  unfolding next_round pure
  after_round rest w true e ih h = round_progress w true e
  after_round rest w false e ih h = ih h

  -- If the loop returns without an error and within its fuel, no version and no delete marker of
  -- the bucket is left, provided that the service lists and deletes as `ListsAndDeletes` says.
  pub delete_all_objects_empties :
      (fuel : ℕ) (w : World K)
      → (delete_all_objects K c n fuel w).0 ≡ ok finished
      → objects (delete_all_objects K c n fuel w).1.svc ≡ []
  unfolding delete_all_objects pure
  delete_all_objects_empties zero w h = cc
  delete_all_objects_empties (suc fuel) w h =
      let (done, e1, e2) =
        bind-eq-ok (delete_round K c n) (next_round K c n (delete_all_objects K c n fuel)) w h in
      subst (λ (r : Result Progress × World K). objects r.1.svc ≡ []) (sym e2)
        (after_round (delete_all_objects K c n fuel) w done e1
          (delete_all_objects_empties fuel (delete_round K c n w).1) (rw e2 at h))

  not_after_round :
      (rest : Action K Progress) (w : World K) (done : Bool)
      → (delete_round K c n w).0 ≡ ok done
      → (length (objects (delete_round K c n w).1.svc) < length (objects w.svc)
          → (rest (delete_round K c n w).1).0 ≢ ok unfinished)
      → (next_round K c n rest done (delete_round K c n w).1).0 ≢ ok unfinished
  unfolding next_round pure
  not_after_round rest w true e ih h = cc
  not_after_round rest w false e ih h = ih (round_progress w false e) h

  -- The loop ends within more rounds than there are versions and delete markers, provided that the
  -- service lists and deletes as `ListsAndDeletes` says: it empties the bucket or returns an error.
  pub delete_all_objects_terminates :
      (fuel : ℕ) (w : World K)
      → length (objects w.svc) < fuel
      → (delete_all_objects K c n fuel w).0 ≢ ok unfinished
  unfolding delete_all_objects pure
  delete_all_objects_terminates zero w enough h = absurd (omega arith)
  delete_all_objects_terminates (suc fuel) w enough h =
      let (done, e1, e2) =
        bind-eq-ok (delete_round K c n) (next_round K c n (delete_all_objects K c n fuel)) w h in
      not_after_round (delete_all_objects K c n fuel) w done e1
        (λ less. delete_all_objects_terminates fuel (delete_round K c n w).1 (omega arith))
        (rw e2 at h)
