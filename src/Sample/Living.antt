-- ===== src/Sample/Living.antt =====
-- The service in memory with the Bucket that the API server stores: it grants what the controller
-- asks.
use obs_operator.Base.{
  String, ◌≡◌, refl, inl, inr, Bool-cases, ◌∙◌, Bool, true, false, Option, none, some, List, [],
  ◌∷◌, contains, string_eq, nat_eq, ==_refl,
}
use obs_operator.Errors.{Result, ok, error_as_obs}
use obs_operator.Api.{Bucket}
use obs_operator.Services.{
  Tag, BucketEncryptionConfiguration, Services, Request, Reply, BucketRequest, BucketReply,
  ObjectVersion, on_bucket, patch_bucket, get_metadata, delete_bucket, get_storage_policy, get_acl,
  get_versioning, get_tagging, delete_tagging, get_logging, get_encryption, delete_encryption,
  list_versions, create_bucket, set_storage_policy, set_acl, set_versioning, set_tagging,
  set_logging, set_encryption, delete_objects,
}
use obs_operator.Services.Action.{World}
use obs_operator.BucketController.ErrorKinds.{
  is_bucket_not_found, is_bucket_not_empty, is_bucket_code,
}
use obs_operator.BucketController.Status.{bucket_finalizer}
use obs_operator.BucketController.Settings.{
  normalize_storage_class, bucket_storage_class, bucket_acl,
}
use obs_operator.BucketController.Update.Service.{Settings, KeepsSettings}
use obs_operator.BucketController.Destroy.Emptying.{ListsAndDeletes}
use obs_operator.BucketController.Liveness.{
  IsSettingOf, Grants, TakesPatches, ValueOrError, HasCode, HasNoEncryptionCode,
}
use obs_operator.BucketController.Liveness.Emptied.{LetsGo}
use obs_operator.Sample
use obs_operator.Sample.{
  Store, tags_answer, encryption_answer, services, secret, constants, ask, set_condition,
  add_finalizer, remove_finalizer, parse, client, service_error, meta,
}
use obs_operator.Sample.Laws.{services-KeepsSettings, services-ListsAndDeletes}
use obs_operator.Sample.Fixtures.{bucket, remote, cached}

pub record Life : Type 0 where
  pub store : Store
  pub held : Bucket

abbrev after : {A : Type 0} → Life → Result A × Store → Result A × Life
after s (r, t) = (r, record s { store = t })

unfoldable pub perform_life : (q : Request) → Life → Result (Reply q) × Life
unfolding Sample.perform
perform_life (patch_bucket b b') s = (ok b', record s { held = b' })
perform_life q s = after s (Sample.perform secret q s.store)

abbrev pub life : Services
life = record {
  State = Life;
  perform = perform_life;
  ctx_err = λ s. none;
  now = λ s. 12;
  constants = constants;
  is_not_found = λ e. false;
  set_status_condition = set_condition;
  contains_finalizer = λ fs f. contains fs f;
  add_finalizer = add_finalizer;
  remove_finalizer = remove_finalizer;
  url_parse = parse;
  url_string = λ u. "https://obs.eu-de.otc.t-systems.com";
  sha256_hex = λ t. t;
}

abbrev pub view : Life → Settings
view s = s.store.settings

abbrev pub exists : Life → Bool
exists s = s.store.exists

abbrev pub held : Life → Bucket
held s = s.held

abbrev pub objects : Life → List ObjectVersion
objects s = s.store.objects

-- A Bucket without our finalizer, and a world without its remote bucket.
abbrev pub unclaimed : Bucket
unclaimed = record bucket { metadata = meta "data" }

abbrev pub new_world : World life
new_world = record {
  svc = record { store = record remote { objects = []; exists = false }; held = unclaimed };
  cache = cached;
  trace = [];
}

-- A Bucket that is being deleted, and a world in which its remote bucket has two objects.
abbrev pub leaving : Bucket
leaving = record bucket { metadata = record bucket.metadata { deletion_timestamp = some 3 } }

abbrev pub leaving_world : World life
leaving_world = record {
  svc = record { store = remote; held = leaving };
  cache = cached;
  trace = [];
}

life-KeepsSettings : KeepsSettings life client "data" view
unfolding perform_life
life-KeepsSettings =
    let L = services-KeepsSettings secret "data" in
    record {
      reads_storage_class = λ s v h. L.reads_storage_class s.store v h;
      reads_acl = λ s v h. L.reads_acl s.store v h;
      reads_versioning = λ s v h. L.reads_versioning s.store v h;
      reads_tags = λ s v h. L.reads_tags s.store v h;
      reads_logging = λ s v h. L.reads_logging s.store v h;
      reads_encryption = λ s v h. L.reads_encryption s.store v h;
      no_tags = λ s e h i. L.no_tags s.store e h i;
      no_encryption = λ s e h i. L.no_encryption s.store e h i;
      read_keeps = λ q s i. L.read_keeps q s.store i;
      sets_storage_class = λ s v h. L.sets_storage_class s.store v h;
      sets_acl = λ s v h. L.sets_acl s.store v h;
      sets_versioning = λ s v h. L.sets_versioning s.store v h;
      sets_tags = λ s v h. L.sets_tags s.store v h;
      deletes_tags = λ s h. L.deletes_tags s.store h;
      sets_logging = λ s v h. L.sets_logging s.store v h;
      sets_encryption = λ s v h. L.sets_encryption s.store v h;
      deletes_encryption = λ s h. L.deletes_encryption s.store h;
    }

-- The storage class and the ACL that the Bucket asks for are those that the service accepts.
standard : normalize_storage_class constants (bucket_storage_class constants unclaimed) ≡ "STANDARD"
unfolding normalize_storage_class bucket_storage_class string_eq
standard = refl

private_one : bucket_acl constants unclaimed ≡ "private"
unfolding bucket_acl string_eq
private_one = refl

abbrev Answered : BucketRequest → Life → Type 0
Answered q s =
    ((v : BucketReply q) × ((perform_life (on_bucket client "data" q) s).0 ≡ ok v))
    × (exists (perform_life (on_bucket client "data" q) s).1 ≡ exists s)

answered : (q : BucketRequest) (s : Life) → IsSettingOf life unclaimed q → Answered q s
unfolding perform_life ask string_eq
answered get_storage_policy s i = ((_, refl), refl)
answered get_acl s i = ((_, refl), refl)
answered get_versioning s i = ((_, refl), refl)
answered get_tagging s i = elim i [ ]
answered delete_tagging s i = elim i [ ]
answered get_logging s i = ((_, refl), refl)
answered get_encryption s i = elim i [ ]
answered delete_encryption s i = elim i [ ]
answered (set_versioning _) s i = ((_, refl), refl)
answered (set_tagging _) s i = ((_, refl), refl)
answered (set_logging _) s i = ((_, refl), refl)
answered (set_encryption _) s i = ((_, refl), refl)
answered (set_storage_policy v) s i = rw (i ∙ standard) ((tt, refl), refl)
answered (set_acl v) s i = rw (i ∙ private_one) ((tt, refl), refl)
answered get_metadata s i = elim i [ ]
answered delete_bucket s i = elim i [ ]
answered list_versions s i = elim i [ ]
answered (create_bucket _) s i = elim i [ ]
answered (delete_objects _) s i = elim i [ ]

missing_bucket : is_bucket_not_found (service_error 404 "NoSuchBucket") ≡ true
unfolding is_bucket_not_found is_bucket_code error_as_obs string_eq nat_eq
missing_bucket = refl

not_empty : is_bucket_not_empty (service_error 409 "BucketNotEmpty") ≡ true
unfolding is_bucket_not_empty is_bucket_code error_as_obs string_eq nat_eq
not_empty = refl

is_there : is_bucket_not_found (service_error 409 "BucketNotEmpty") ≡ false
unfolding is_bucket_not_found is_bucket_code error_as_obs string_eq nat_eq
is_there = refl

tags_answered : (l : List Tag) → ValueOrError (HasCode "NoSuchTagSet") (tags_answer l)
unfolding error_as_obs
tags_answered [] = inr (_, refl, (_, refl, refl))
tags_answered (t ∷ ts) = inl (_, refl)

encryption_answered :
    (x : Option BucketEncryptionConfiguration)
    → ValueOrError HasNoEncryptionCode (encryption_answer x)
unfolding error_as_obs
encryption_answered none = inr (_, refl, inl (_, refl, refl))
encryption_answered (some e) = inl (_, refl)

pub life-Grants : Grants life client unclaimed view exists
unfolding perform_life ask
life-Grants = record {
  keeps = life-KeepsSettings;
  answers = λ q s i _. (answered q s i).0;
  setting_keeps = λ q s i. (answered q s i).1;
  reads_tags = λ s _. (tags_answered s.store.settings.tags, refl);
  clears_tags = λ s _. (inl (tt, refl), refl);
  reads_encryption = λ s _. (encryption_answered s.store.settings.encryption, refl);
  clears_encryption = λ s _. (inl (tt, refl), refl);
  finds = λ s e. ("3.0", rw e refl);
  misses = λ s e. (service_error 404 "NoSuchBucket", rw e refl, missing_bucket);
  metadata_keeps = λ s. elim (Bool-cases s.store.exists) [
    | inl e ↦ rw e (refl, refl)
    | inr e ↦ rw e (refl, refl)
  ];
  creates = λ i s e. (refl, refl);
}

-- A Bucket with our finalizer asks for the same.
abbrev pub kept : Bucket
kept = bucket

pub kept-Grants : Grants life client kept view exists
unfolding bucket_storage_class bucket_acl
kept-Grants =
    let L = life-Grants in
    record {
      keeps = L.keeps;
      answers = L.answers;
      setting_keeps = L.setting_keeps;
      reads_tags = L.reads_tags;
      clears_tags = L.clears_tags;
      reads_encryption = L.reads_encryption;
      clears_encryption = L.clears_encryption;
      finds = L.finds;
      misses = L.misses;
      metadata_keeps = L.metadata_keeps;
      creates = L.creates;
    }

pub adds_finalizer :
    (fs : List String) → contains (add_finalizer fs bucket_finalizer) bucket_finalizer ≡ true
unfolding add_finalizer
adds_finalizer fs = elim (Bool-cases (contains fs bucket_finalizer)) [
  | inl e ↦ rw (e, e) refl
  | inr e ↦ rw (e, ==_refl bucket_finalizer) refl
]

pub life-TakesPatches : TakesPatches life view exists held
unfolding perform_life
life-TakesPatches = record {
  patches_status = λ b b' s. (refl, refl, refl);
  patches = λ b b' s. (refl, refl, refl, refl);
}

life-ListsAndDeletes : ListsAndDeletes life client "data" objects
unfolding perform_life
life-ListsAndDeletes =
    let L = services-ListsAndDeletes secret "data" in
    record {
      lists = λ s out h. L.lists s.store out h;
      keeps = λ s. L.keeps s.store;
      deletes = λ s os h. L.deletes s.store os h;
    }

pub life-LetsGo : LetsGo life client "data" objects exists held
unfolding perform_life ask
life-LetsGo = record {
  lists_and_deletes = life-ListsAndDeletes;
  runs_on = λ s. refl;
  finds = λ s e. ("3.0", rw e refl);
  finding_keeps = λ s. elim (Bool-cases s.store.exists) [
    | inl e ↦ rw e (refl, refl)
    | inr e ↦ rw e (refl, refl)
  ];
  lists = λ s. (_, refl);
  deletes = λ os s. refl;
  deletes_empty = λ s e. rw e (refl, refl);
  refuses = λ s o os e. rw e (service_error 409 "BucketNotEmpty", refl, not_empty, is_there, refl);
  patches = λ b b' s. (refl, refl, refl);
}
