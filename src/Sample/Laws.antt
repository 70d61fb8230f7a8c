-- ===== src/Sample/Laws.antt =====
-- The service in memory keeps the laws that the properties suppose.
use obs_operator.BucketController.Acl.Private.{PrivateIsOther}
use obs_operator.Base.{false, true, ap, ◌==◌}
use obs_operator.Services.Run.{ok_inj}
use obs_operator.Base.{ℕ, String, ◌≡◌, refl, sym, ap, ◌∙◌, false, Option, none, some, List, [], ◌∷◌}
use obs_operator.Base.{◌==◌, string_eq, nat_eq, Bool-cases, inl, inr, eq-of-==, ==_refl}
use mathlib.Core.Path.{subst}
use obs_operator.Errors.{GoError, Result, ok, err}
use obs_operator.Api.{Condition, Secret}
use obs_operator.Services.{
  Tag, BucketEncryptionConfiguration, ObjectVersion, BucketRequest, on_bucket, get_metadata,
  delete_bucket, get_storage_policy, get_acl, get_versioning, get_tagging, delete_tagging,
  get_logging, get_encryption, delete_encryption, list_versions, create_bucket, set_storage_policy,
  set_acl, set_versioning, set_tagging, set_logging, set_encryption, delete_objects,
}
use obs_operator.BucketController.Acl.{
  flatten_canned_acl, flatten_grants, acl_matches, all_in, grant_signature, normalize_grant_uri,
  grant_signature_eq,
}
use obs_operator.BucketController.Settings.{normalize_storage_class}
use obs_operator.BucketController.Destroy.{page_objects}
use obs_operator.BucketController.Destroy.Emptying.{ListsAndDeletes, Behind}
use obs_operator.BucketController.Update.Service.{KeepsSettings, IsRead}
use obs_operator.Sample.{
  Store, constants, service_error, tags_answer, encryption_answer, page_of, private_acl, ask,
  perform, set_condition, services, client,
}

page_of-Behind :
    (all : List ObjectVersion) → Behind (page_objects (page_of all)) all (page_of all).is_truncated
unfolding page_objects
page_of-Behind [] = ([], refl, λ h. refl, λ h. refl)
page_of-Behind (x ∷ []) = ([], refl, λ h. refl, λ h. refl)
page_of-Behind (x ∷ y ∷ ys) = (y ∷ ys, refl, λ h. cc, λ h. cc)

pub services-ListsAndDeletes :
    (k : Secret) (n : String) → ListsAndDeletes (services k) client n (λ s. s.objects)
unfolding perform ask
services-ListsAndDeletes k n = record {
  lists = λ s out h.
      subst (λ o. Behind (page_objects o) s.objects o.is_truncated)
        (ok_inj (page_of s.objects) out h) (page_of-Behind s.objects);
  keeps = λ s. refl;
  deletes = λ s os h. refl;
}

pub private_grants : flatten_canned_acl constants (some private_acl) ≡ some "private"
unfolding flatten_canned_acl flatten_grants acl_matches all_in grant_signature normalize_grant_uri
    grant_signature_eq string_eq
private_grants = refl

read_keeps_settings :
    (k : Secret) (n : String) (q : BucketRequest) (s : Store)
    → IsRead q
    → (perform k (on_bucket client n q) s).1.settings ≡ s.settings
unfolding perform ask
read_keeps_settings k n get_storage_policy s i = refl
read_keeps_settings k n get_acl s i = refl
read_keeps_settings k n get_versioning s i = refl
read_keeps_settings k n get_tagging s i = refl
read_keeps_settings k n get_logging s i = refl
read_keeps_settings k n get_encryption s i = refl
read_keeps_settings k n get_metadata s i = elim i [ ]
read_keeps_settings k n delete_bucket s i = elim i [ ]
read_keeps_settings k n delete_tagging s i = elim i [ ]
read_keeps_settings k n delete_encryption s i = elim i [ ]
read_keeps_settings k n list_versions s i = elim i [ ]
read_keeps_settings k n (create_bucket _) s i = elim i [ ]
read_keeps_settings k n (set_storage_policy _) s i = elim i [ ]
read_keeps_settings k n (set_acl _) s i = elim i [ ]
read_keeps_settings k n (set_versioning _) s i = elim i [ ]
read_keeps_settings k n (set_tagging _) s i = elim i [ ]
read_keeps_settings k n (set_logging _) s i = elim i [ ]
read_keeps_settings k n (set_encryption _) s i = elim i [ ]
read_keeps_settings k n (delete_objects _) s i = elim i [ ]

err-ok : (e : GoError) → ◌≡◌ {A = Result (Unit {0})} (err e) (ok tt) → ⊥
err-ok e h = cc

standard_is_normal : normalize_storage_class constants "STANDARD" ≡ "STANDARD"
unfolding normalize_storage_class string_eq
standard_is_normal = refl

sets_class :
    (k : Secret) (n : String) (s : Store) (v : String)
    → (perform k (on_bucket client n (set_storage_policy v)) s).0 ≡ ok tt
    → let t = (perform k (on_bucket client n (set_storage_policy v)) s).1 in
      (t.settings ≡ record (s.settings) { storage_class = t.settings.storage_class })
      × (normalize_storage_class constants t.settings.storage_class ≡ v)
unfolding perform ask
sets_class k n s v h = elim (Bool-cases (v == "STANDARD")) [
  | inl t ↦ rw t (
    refl,
    ap (normalize_storage_class constants) (eq-of-== v "STANDARD" t)
        ∙ standard_is_normal
        ∙ sym (eq-of-== v "STANDARD" t),
  )
  | inr t ↦ absurd (err-ok (service_error 400 "InvalidArgument") (rw t at h))
]

sets_canned :
    (k : Secret) (n : String) (s : Store) (v : String)
    → (perform k (on_bucket client n (set_acl v)) s).0 ≡ ok tt
    → let t = (perform k (on_bucket client n (set_acl v)) s).1 in
      (t.settings ≡ record (s.settings) { acl = t.settings.acl })
      × (flatten_canned_acl constants t.settings.acl ≡ some v)
unfolding perform ask
sets_canned k n s v h = elim (Bool-cases (v == "private")) [
  | inl t ↦ rw t (refl, private_grants ∙ ap some (sym (eq-of-== v "private" t)))
  | inr t ↦ absurd (err-ok (service_error 400 "InvalidArgument") (rw t at h))
]

read_tags : (l v : List Tag) → tags_answer l ≡ ok v → v ≡ l
read_tags [] v h = cc
read_tags (t ∷ ts) v h = sym (ok_inj (t ∷ ts) v h)

no_tags_read : (l : List Tag) (e : GoError) → tags_answer l ≡ err e → l ≡ []
no_tags_read [] e h = refl
no_tags_read (t ∷ ts) e h = cc

read_encryption : (x v : Option BucketEncryptionConfiguration) → encryption_answer x ≡ ok v → v ≡ x
read_encryption none v h = cc
read_encryption (some x) v h = sym (ok_inj (some x) v h)

no_encryption_read :
    (x : Option BucketEncryptionConfiguration) (e : GoError)
    → encryption_answer x ≡ err e
    → x ≡ none
no_encryption_read none e h = refl
no_encryption_read (some x) e h = cc

pub services-KeepsSettings :
    (k : Secret) (n : String) → KeepsSettings (services k) client n (λ s. s.settings)
unfolding perform ask
services-KeepsSettings k n = record {
  reads_storage_class = λ s v h. sym (ok_inj s.settings.storage_class v h);
  reads_acl = λ s v h. sym (ok_inj s.settings.acl v h);
  reads_versioning = λ s v h. sym (ok_inj s.settings.versioning v h);
  reads_tags = λ s v h. read_tags s.settings.tags v h;
  reads_logging = λ s v h. sym (ok_inj s.settings.logging v h);
  reads_encryption = λ s v h. read_encryption s.settings.encryption v h;
  no_tags = λ s e h i. no_tags_read s.settings.tags e h;
  no_encryption = λ s e h i. no_encryption_read s.settings.encryption e h;
  read_keeps = read_keeps_settings k n;
  sets_storage_class = λ s v h. sets_class k n s v h;
  sets_acl = λ s v h. sets_canned k n s v h;
  sets_versioning = λ s v h. refl;
  sets_tags = λ s v h. refl;
  deletes_tags = λ s h. refl;
  sets_logging = λ s v h. refl;
  sets_encryption = λ s v h. refl;
  deletes_encryption = λ s h. refl;
}

-- A condition of another type stays.
set_condition_other :
    (now : ℕ) (d : Condition) (ds : List Condition) (c : Condition)
    → (d.kind == c.kind) ≡ false
    → set_condition now (d ∷ ds) c ≡ d ∷ set_condition now ds c
unfolding set_condition
set_condition_other now d ds c t = rw t refl

-- Setting a condition again changes nothing.
pub set_condition_once :
    (now later : ℕ) (cs : List Condition) (c : Condition)
    → set_condition later (set_condition now cs c) c ≡ set_condition now cs c
unfolding set_condition
set_condition_once now later [] c = rw (==_refl c.kind, ==_refl c.status) refl
set_condition_once now later (d ∷ ds) c = elim (Bool-cases (d.kind == c.kind)) [
  | inl t ↦ rw (t, set_condition, ==_refl c.kind, ==_refl c.status) refl
  | inr t ↦
      ap (λ l. set_condition later l c) (set_condition_other now d ds c t)
      ∙ set_condition_other later d (set_condition now ds c) c t
      ∙ ap (λ l. d ∷ l) (set_condition_once now later ds c)
      ∙ sym (set_condition_other now d ds c t)
]

clash : false ≡ true → ⊥
clash h = cc

pub constants-PrivateIsOther : PrivateIsOther constants
unfolding string_eq
constants-PrivateIsOther = (
  (λ h. clash (ap (λ x. x == "private") h)),
  (λ h. clash (ap (λ x. x == "private") h)),
  (λ h. clash (ap (λ x. x == "private") h)),
)
