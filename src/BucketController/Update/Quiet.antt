-- ===== src/BucketController/Update/Quiet.antt =====
-- The requests of `update` on a bucket that is already as the resource asks.
use obs_operator.Base.{
  String, ◌≡◌, refl, sym, ap, ◌∙◌, Bool, true, Option, none, some, List, [], ◌∷◌, if◌then◌else◌,
  inl, inr, string_eq, option_eq, nat_eq, ==_refl,
}
use mathlib.Core.Path.{subst}
use obs_operator.Base.Dict.{NodupKeys}
use obs_operator.BucketController.Update.Convergence.{update-IsInSync}
use obs_operator.Errors.{GoError, Result, ok}
use obs_operator.Api.{Bucket, BucketServerSideEncryptionSpec}
use obs_operator.Services.{
  Services, ObsClient, Request, Tag, BucketEncryptionConfiguration, BucketRequest, BucketReply,
  on_bucket, get_storage_policy, get_acl, get_versioning, get_tagging, get_logging, get_encryption,
}
use obs_operator.Services.Action.{World, Action, pure, fail, wrapped, on_error, call, ◌>>=◌}
use obs_operator.Services.Trace.{All}
use obs_operator.Services.Run.{
  Result-cases, handle_ok, handle_err, world-wrapped, wrapped-eq-ok, world-on_error,
}
use obs_operator.BucketController.Settings.{
  normalize_storage_class, bucket_storage_class, bucket_acl, bucket_versioning, desired_tags,
  tag_map, maps_equal,
}
use obs_operator.BucketController.Update.{
  unless, no_tags_error, no_current_encryption_error, put_storage_class, reconcile_storage_class,
  put_acl, reconcile_acl, put_versioning, reconcile_versioning, bucket_tags, put_tags,
  reconcile_tags, put_logging, reconcile_logging, clear_encryption, put_encryption,
  apply_encryption, reconcile_encryption, run_steps, update,
}
use obs_operator.BucketController.Update.Service.{
  Settings, IsRead, KeepsSettings, IsInSync, EncryptionWanted,
}
use obs_operator.BucketController.Update.Reading.{no_tag_list, read_or}
use obs_operator.BucketController.Update.TagsAndEncryption.{bucket_tags_read}

-- A request that reads a setting of the bucket of that name.
abbrev pub IsReadOf : String → Request → Type 0
IsReadOf n (on_bucket c m q) = (m ≡ n) × IsRead q
IsReadOf n _ = ⊥

module _ (K : Services) (c : ObsClient) (b : Bucket) (view : K.State → Settings)
    (L : KeepsSettings K c b.name view) (s : Settings) where
  -- The bucket has the settings `s`, and all that was requested are reads.
  abbrev IsQuiet : World K → Type 0
  IsQuiet w = (view w.svc ≡ s) × All (IsReadOf b.name) w.trace

  read-IsQuiet :
      (q : BucketRequest) (w : World K)
      → IsRead q
      → IsQuiet w
      → IsQuiet (call K (on_bucket c b.name q) w).1
  unfolding call
  read-IsQuiet q w i h = (L.read_keeps q w.svc i ∙ h.0, ((refl, i), h.1))

  -- A block whose first part is quiet, and whose rest is for what that part returned.
  bind-IsQuiet :
      {A B : Type 0} (m : Action K A) (f : A → Action K B) (w : World K)
      → IsQuiet (m w).1
      → ((a : A) → (m w).0 ≡ ok a → IsQuiet (f a (m w).1).1)
      → IsQuiet ((m >>= f) w).1
  unfolding fail
  bind-IsQuiet {A} {B} m f w h k = elim (Result-cases (m w).0) [
    | inl (a, e) ↦
        subst (λ (r : Result B × World K). IsQuiet r.1) (sym (handle_ok m f fail w e)) (k a e)
    | inr (x, e) ↦ subst (λ (r : Result B × World K). IsQuiet r.1) (sym (handle_err m f fail w e)) h
  ]

  -- A setting that is as wanted is read and left.
  step-IsQuiet :
      (prefix prefix' : String) (q : BucketRequest) (test : BucketReply q → Bool)
      (put : Action K (Unit {0})) (field : Settings → BucketReply q)
      → IsRead q
      → ((t : K.State) (v : BucketReply q)
          → (K.perform (on_bucket c b.name q) t).0 ≡ ok v
          → v ≡ field (view t))
      → test (field s) ≡ true
      → (w : World K) → IsQuiet w
      → IsQuiet
          ((wrapped prefix (call K (on_bucket c b.name q)) >>= λ v.
              if test v then pure tt else wrapped prefix' put)
            w).1
  unfolding call pure
  step-IsQuiet prefix prefix' q test put field i reads is w h =
      let get = call K (on_bucket c b.name q) in
      let same = world-wrapped prefix get w in
      bind-IsQuiet (wrapped prefix get) (λ v. if test v then pure tt else wrapped prefix' put) w
        (subst IsQuiet (sym same) (read-IsQuiet q w i h))
        (λ v e.
          let found = reads w.svc v (wrapped-eq-ok prefix get w e) ∙ ap field h.0 in
          rw (ap test found ∙ is) (subst IsQuiet (sym same) (read-IsQuiet q w i h)))

  -- A read that takes some errors for a value.
  on_error-IsQuiet :
      (q : BucketRequest) (f : GoError → Result (BucketReply q)) (w : World K)
      → IsRead q
      → IsQuiet w
      → IsQuiet (on_error f (call K (on_bucket c b.name q)) w).1
  on_error-IsQuiet q f w i h =
      subst IsQuiet (sym (world-on_error f (call K (on_bucket c b.name q)) w))
        (read-IsQuiet q w i h)

  bucket_tags-IsQuiet : (w : World K) → IsQuiet w → IsQuiet (bucket_tags K c b w).1
  unfolding bucket_tags pure
  bucket_tags-IsQuiet w h =
      let f = unless no_tags_error no_tag_list "read bucket tags: " in
      let quiet = on_error-IsQuiet get_tagging f w tt h in
      bind-IsQuiet (on_error f (call K (on_bucket c b.name get_tagging)))
        (λ (tags : List Tag). pure {K = K} (tag_map [] tags)) w quiet (λ v e. quiet)

  tags-IsQuiet :
      (w : World K)
      → maps_equal (tag_map [] s.tags) (desired_tags b) ≡ true
      → IsQuiet w
      → IsQuiet (reconcile_tags K c b w).1
  unfolding reconcile_tags put_tags pure
  tags-IsQuiet w is h =
      let quiet = bucket_tags-IsQuiet w h in
      bind-IsQuiet (bucket_tags K c b) (put_tags K c b (desired_tags b)) w quiet (λ d e.
        let found = (bucket_tags_read K c b view L w d e).0 ∙ ap (λ t. tag_map [] t.tags) h.0 in
        rw (ap (λ x. maps_equal x (desired_tags b)) found ∙ is) quiet)

  apply_encryption-IsQuiet :
      (wanted : Option BucketServerSideEncryptionSpec)
      (current : Option BucketEncryptionConfiguration) (w : World K)
      → EncryptionWanted wanted current
      → IsQuiet w
      → IsQuiet (apply_encryption K c b wanted current w).1
  unfolding apply_encryption clear_encryption put_encryption pure
  apply_encryption-IsQuiet none none w is h = h
  apply_encryption-IsQuiet none (some x) w is h = cc
  apply_encryption-IsQuiet (some spec) current w is h = rw is h

  encryption-IsQuiet :
      (w : World K)
      → EncryptionWanted b.spec.server_side_encryption s.encryption
      → IsQuiet w
      → IsQuiet (reconcile_encryption K c b w).1
  unfolding reconcile_encryption
  encryption-IsQuiet w is h =
      let f = unless no_current_encryption_error none "read bucket encryption: " in
      let quiet = on_error-IsQuiet get_encryption f w tt h in
      bind-IsQuiet (on_error f (call K (on_bucket c b.name get_encryption)))
        (apply_encryption K c b b.spec.server_side_encryption) w quiet
        (λ v e.
          let found =
            read_or K c b view L get_encryption no_current_encryption_error none
              "read bucket encryption: " (λ t. t.encryption) L.reads_encryption L.no_encryption w v
              e
            ∙ ap (λ t. t.encryption) h.0 in
          apply_encryption-IsQuiet b.spec.server_side_encryption v _
            (subst (EncryptionWanted b.spec.server_side_encryption) (sym found) is) quiet)

  -- A loop over steps that are quiet.
  abbrev AreQuiet : List (Bucket → Action K (Unit {0})) → Type 0
  AreQuiet [] = Unit
  AreQuiet (step ∷ steps) = ((w : World K) → IsQuiet w → IsQuiet (step b w).1) × AreQuiet steps

  run_steps-IsQuiet :
      (steps : List (Bucket → Action K (Unit {0}))) (w : World K)
      → AreQuiet steps
      → IsQuiet w
      → IsQuiet (run_steps K c steps b w).1
  unfolding run_steps pure
  run_steps-IsQuiet [] w q h = h
  run_steps-IsQuiet (step ∷ steps) w q h =
      bind-IsQuiet (step b) (λ (u : Unit {0}). run_steps K c steps b) w (q.0 w h)
        (λ u e. run_steps-IsQuiet steps (step b w).1 q.1 (q.0 w h))

  update-IsQuiet : (w : World K) → IsInSync K b s → IsQuiet w → IsQuiet (update K c b w).1
  unfolding update reconcile_storage_class put_storage_class reconcile_acl put_acl
      reconcile_versioning put_versioning reconcile_logging put_logging
  update-IsQuiet w (class, acl, versioning, tags, logging, encryption) h =
      run_steps-IsQuiet _ w
        (
          step-IsQuiet _ _ get_storage_policy _ _ (λ t. t.storage_class) tt L.reads_storage_class
              (rw class (
                ==_refl
                  (normalize_storage_class K.constants (bucket_storage_class K.constants b)))),
          (
            step-IsQuiet _ _ get_acl _ _ (λ t. t.acl) tt L.reads_acl
                (rw acl (==_refl (some (bucket_acl K.constants b)))),
            (
              step-IsQuiet _ _ get_versioning _ _ (λ t. t.versioning) tt L.reads_versioning
                  (rw versioning (==_refl (bucket_versioning K.constants b))),
              (
                (λ u. tags-IsQuiet u tags),
                (
                  step-IsQuiet _ _ get_logging _ _ (λ t. t.logging) tt L.reads_logging logging,
                  ((λ u. encryption-IsQuiet u encryption), tt),
                ),
              ),
            ),
          ),
        )
        h

-- A world with its list of requests emptied.
abbrev pub from_now : {K : Services} → World K → World K
from_now w = record w { trace = [] }

module _ (K : Services) (c : ObsClient) (b : Bucket) (view : K.State → Settings)
    (L : KeepsSettings K c b.name view) where
  -- When the remote bucket is as the resource asks, `update` requests reads of the bucket's
  -- settings only, and leaves the settings as they are, whether a read fails or not, provided that
  -- the service keeps settings as `KeepsSettings` says.
  pub update-IsReadOf :
      (w : World K)
      → IsInSync K b (view w.svc)
      → All (IsReadOf b.name) w.trace
      → (view (update K c b w).1.svc ≡ view w.svc) × All (IsReadOf b.name) (update K c b w).1.trace
  update-IsReadOf w is h = update-IsQuiet K c b view L (view w.svc) w is (refl, h)

  -- When an `update` has succeeded, the next one requests reads of the bucket's settings only, and
  -- leaves the settings as they are, provided that the service keeps settings as `KeepsSettings`
  -- says and that no key stands twice in the resource's tags.
  pub update_again-IsReadOf :
      (w : World K)
      → NodupKeys (desired_tags b)
      → (update K c b w).0 ≡ ok tt
      → (view (update K c b (from_now (update K c b w).1)).1.svc ≡ view (update K c b w).1.svc)
        × All (IsReadOf b.name) (update K c b (from_now (update K c b w).1)).1.trace
  update_again-IsReadOf w u h =
      update-IsReadOf (from_now (update K c b w).1) (update-IsInSync K c b view L w u h) tt
