-- ===== src/BucketController/Update/Reading.antt =====
-- A step of `update` against a service that keeps what it is given: the read, the comparison and
-- the write.
use obs_operator.Base.{
  String, ◌≡◌, refl, sym, ap, ◌∙◌, Bool, true, false, some, List, [], ◌∷◌, arith,
}
use obs_operator.Base.{◌==◌, string_eq, option_eq, nat_eq, length, if◌then◌else◌, ==_refl, inl, inr}
use mathlib.Core.Path.{subst}
use obs_operator.Base.Dict.{Dict}
use obs_operator.Errors.{GoError, Result, ok, err}
use obs_operator.Api.{Bucket}
use obs_operator.Services.{
  Services, ObsClient, Tag, BucketLoggingStatus, BucketEncryptionConfiguration, BucketRequest,
  BucketReply, on_bucket,
}
use obs_operator.Services.Action.{World, Action, pure, wrapped, on_error, call, ◌>>=◌}
use obs_operator.Services.Run.{
  bind-eq-ok, world-wrapped, wrapped-eq-ok, world-on_error, on_error-eq-ok,
}
use obs_operator.BucketController.Settings.{
  tags_from_map, sort_strings, logging_matches, encryption_matches,
}
use obs_operator.BucketController.Update.{unless}
use obs_operator.BucketController.Update.Service.{Settings, IsRead, Cleared, KeepsSettings}

-- A write that may be left out, when it succeeds.
pub put_ok :
    {K : Services} (prefix : String) (test : Bool) (m : Action K (Unit {0})) (w : World K)
    (Q : World K → Type 0)
    → ((if test then pure tt else wrapped prefix m) w).0 ≡ ok tt
    → (test ≡ true → Q w)
    → (test ≡ false → (m w).0 ≡ ok tt → Q (m w).1)
    → Q ((if test then pure tt else wrapped prefix m) w).1
unfolding pure
put_ok prefix true m w Q h same written = same refl
put_ok prefix false m w Q h same written =
    subst Q (sym (world-wrapped prefix m w)) (written refl (wrapped-eq-ok prefix m w h))

-- A setting is read, compared, and written where it differs.
pub get_put :
    {K : Services} {A : Type 0} (prefix prefix' : String) (get : Action K A) (test : A → Bool)
    (put : Action K (Unit {0})) (w : World K) (Q : World K → Type 0)
    → ((wrapped prefix get >>= λ v. if test v then pure tt else wrapped prefix' put) w).0 ≡ ok tt
    → ((v : A) → (get w).0 ≡ ok v → test v ≡ true → Q (get w).1)
    → ((v : A)
        → (get w).0 ≡ ok v
        → test v ≡ false
        → (put (get w).1).0 ≡ ok tt
        → Q (put (get w).1).1)
    → Q ((wrapped prefix get >>= λ v. if test v then pure tt else wrapped prefix' put) w).1
get_put {K} {A} prefix prefix' get test put w Q h same written =
    let f = λ (v : A). if test v then pure {K = K} tt else wrapped prefix' put in
    let (v, e1, e2) = bind-eq-ok (wrapped prefix get) f w h in
    let got = wrapped-eq-ok prefix get w e1 in
    let there = e2 ∙ ap (f v) (world-wrapped prefix get w) in
    subst (λ (r : Result (Unit {0}) × World K). Q r.1) (sym there)
      (put_ok prefix' (test v) put (get w).1 Q (rw there at h) (same v got) (written v got))

pub logging_matches_self : (l : BucketLoggingStatus) → logging_matches (some l) l ≡ true
unfolding logging_matches
logging_matches_self l = rw (==_refl l.target_bucket, ==_refl l.target_prefix, ==_refl l.agency)

pub encryption_matches_self :
    (l : BucketEncryptionConfiguration) → encryption_matches (some l) l ≡ true
unfolding encryption_matches
encryption_matches_self l =
    rw (==_refl l.sse_algorithm, ==_refl l.kms_master_key_id, ==_refl l.project_id)

abbrev pub no_tag_list : List Tag
no_tag_list = []

pub tags_from_map_empty : (d : Dict String String) → (length d == 0) ≡ true → tags_from_map d ≡ []
unfolding tags_from_map sort_strings nat_eq
tags_from_map_empty [] h = refl
tags_from_map_empty (e ∷ d) h = ground arith

-- An error that is taken for a success.
pub unless-eq-ok :
    {A : Type 0} (ignored : GoError → Bool) (a : A) (prefix : String) (e : GoError) {x : A}
    → unless ignored a prefix e ≡ ok x
    → (ignored e ≡ true) × (a ≡ x)
unless-eq-ok ignored a prefix e h = ground arith

module _ (K : Services) (c : ObsClient) (b : Bucket) (view : K.State → Settings)
    (L : KeepsSettings K c b.name view) where
  -- A setting that a read reports is as wanted, or is written.
  pub setting_settled :
      (prefix prefix' : String) (q : BucketRequest) (test : BucketReply q → Bool)
      (put : Action K (Unit {0})) (field : Settings → BucketReply q)
      (Q : Settings → Settings → Type 0)
      → IsRead q
      → ((s : K.State) (v : BucketReply q)
          → (K.perform (on_bucket c b.name q) s).0 ≡ ok v
          → v ≡ field (view s))
      → ((s : Settings) → test (field s) ≡ true → Q s s)
      → ((w : World K) → (put w).0 ≡ ok tt → Q (view w.svc) (view (put w).1.svc))
      → (w : World K)
      → ((wrapped prefix (call K (on_bucket c b.name q)) >>= λ v.
            if test v then pure tt else wrapped prefix' put)
          w).0
        ≡ ok tt
      → Q (view w.svc) (
          view
            ((wrapped prefix (call K (on_bucket c b.name q)) >>= λ v.
                if test v then pure tt else wrapped prefix' put)
              w).1.svc)
  unfolding call
  setting_settled prefix prefix' q test put field Q isr reads same written w h =
      get_put prefix prefix' (call K (on_bucket c b.name q)) test put w
        (λ u. Q (view w.svc) (view u.svc)) h
        (λ v got t.
          subst (Q (view w.svc)) (sym (L.read_keeps q w.svc isr))
            (same (view w.svc) (ap test (sym (reads w.svc v got)) ∙ t)))
        (λ v got t wrote.
          subst (λ s. Q s (view (put (call K (on_bucket c b.name q) w).1).1.svc))
            (L.read_keeps q w.svc isr) (written (call K (on_bucket c b.name q) w).1 wrote))

  -- A deletion that succeeds or that finds nothing.
  pub cleared :
      (q : Action K (Unit {0})) (ignored : GoError → Bool) (prefix : String) (w : World K)
      → (on_error (unless ignored tt prefix) q w).0 ≡ ok tt
      → Cleared ignored (q w).0
  cleared q ignored prefix w h = elim (on_error-eq-ok (unless ignored tt prefix) q w h) [
    | inl e ↦ rw e tt
    | inr (x, e, i) ↦ rw e (unless-eq-ok ignored tt prefix x i).0
  ]

  -- A read that takes some errors for the value `a`.
  pub read_or :
      (q : BucketRequest) (ignored : GoError → Bool) (a : BucketReply q) (prefix : String)
      (field : Settings → BucketReply q)
      → ((s : K.State) (v : BucketReply q)
          → (K.perform (on_bucket c b.name q) s).0 ≡ ok v
          → v ≡ field (view s))
      → ((s : K.State) (e : GoError)
          → (K.perform (on_bucket c b.name q) s).0 ≡ err e
          → ignored e ≡ true
          → field (view s) ≡ a)
      → (w : World K) (v : BucketReply q)
      → (on_error (unless ignored a prefix) (call K (on_bucket c b.name q)) w).0 ≡ ok v
      → v ≡ field (view w.svc)
  unfolding call
  read_or q ignored a prefix field reads absent w v h =
      elim (on_error-eq-ok (unless ignored a prefix) (call K (on_bucket c b.name q)) w h) [
        | inl e ↦ reads w.svc v e
        | inr (x, e, i) ↦
            let (t, same) = unless-eq-ok ignored a prefix x i in sym (absent w.svc x e t ∙ same)
      ]

  pub world-read_or :
      (q : BucketRequest) (f : GoError → Result (BucketReply q))
      → IsRead q
      → (w : World K) → view (on_error f (call K (on_bucket c b.name q)) w).1.svc ≡ view w.svc
  unfolding call
  world-read_or q f isr w =
      ap (λ (u : World K). view u.svc) (world-on_error f (call K (on_bucket c b.name q)) w)
      ∙ L.read_keeps q w.svc isr
