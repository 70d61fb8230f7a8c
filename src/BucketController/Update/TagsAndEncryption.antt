-- ===== src/BucketController/Update/TagsAndEncryption.antt =====
-- What the steps of `update` for the tags and the encryption leave.
use obs_operator.Services.Run.{ok_inj}
use obs_operator.Base.{String, ◌≡◌, refl, sym, ap, ◌∙◌, true, Option, none, some, List, []}
use obs_operator.Base.{◌==◌, string_eq, option_eq, nat_eq, length, Bool-cases, inl, inr, ◌⊎◌}
use mathlib.Core.Path.{subst}
use obs_operator.Base.Dict.{Dict}
use obs_operator.Errors.{Result, ok}
use obs_operator.Api.{Bucket, BucketServerSideEncryptionSpec}
use obs_operator.Services.{
  Services, ObsClient, Tag, BucketEncryptionConfiguration, on_bucket, get_tagging, set_tagging,
  delete_tagging, get_encryption, set_encryption, delete_encryption,
}
use obs_operator.Services.Action.{World, pure, on_error, call}
use obs_operator.Services.Run.{bind-eq-ok, world-wrapped, wrapped-eq-ok, world-on_error}
use obs_operator.BucketController.Settings.{
  desired_tags, tag_map, maps_equal, tags_from_map, encryption_config, encryption_matches,
}
use obs_operator.BucketController.Update.{
  unless, no_tags_error, no_encryption_error, no_current_encryption_error, bucket_tags, put_tags,
  reconcile_tags, clear_encryption, put_encryption, apply_encryption, reconcile_encryption,
}
use obs_operator.BucketController.Update.Service.{EncryptionWanted, Settings, KeepsSettings}
use obs_operator.BucketController.Update.Reading.{
  put_ok, encryption_matches_self, no_tag_list, tags_from_map_empty, cleared, read_or,
  world-read_or,
}

module _ (K : Services) (c : ObsClient) (b : Bucket) (view : K.State → Settings)
    (L : KeepsSettings K c b.name view) where
  -- The tags are those that are desired, or were just set to the list of them.
  abbrev pub TagsSettled : Settings → Settings → Type 0
  TagsSettled s t =
      (t ≡ record s { tags = t.tags })
      × ((maps_equal (tag_map [] t.tags) (desired_tags b) ≡ true)
          ⊎ (t.tags ≡ tags_from_map (desired_tags b)))

  pub bucket_tags_read :
      (w : World K) (d : Dict String String)
      → (bucket_tags K c b w).0 ≡ ok d
      → (d ≡ tag_map [] (view w.svc).tags) × (view (bucket_tags K c b w).1.svc ≡ view w.svc)
  unfolding bucket_tags pure
  bucket_tags_read w d h =
      let f = unless no_tags_error no_tag_list "read bucket tags: " in
      let read = on_error f (call K (on_bucket c b.name get_tagging)) in
      let (v, e1, e2) = bind-eq-ok read (λ (tags : List Tag). pure {K = K} (tag_map [] tags)) w h in
      let is =
        read_or K c b view L get_tagging no_tags_error [] "read bucket tags: " (λ s. s.tags)
          L.reads_tags L.no_tags w v e1 in
      let now = ap (λ (r : Result (Dict String String) × World K). r.0) e2 in
      (
        ok_inj d (tag_map [] v) (sym h ∙ now) ∙ ap (tag_map []) is,
        ap (λ (r : Result (Dict String String) × World K). view r.1.svc) e2
            ∙ world-read_or K c b view L get_tagging f tt w,
      )

  put_tags_settled :
      (w : World K) (current : Dict String String)
      → current ≡ tag_map [] (view w.svc).tags
      → (put_tags K c b (desired_tags b) current w).0 ≡ ok tt
      → TagsSettled (view w.svc) (view (put_tags K c b (desired_tags b) current w).1.svc)
  unfolding put_tags pure call
  put_tags_settled w current is h = elim (Bool-cases (maps_equal current (desired_tags b))) [
    | inl m ↦ rw m (refl, inl (ap (λ d. maps_equal d (desired_tags b)) (sym is) ∙ m))
    | inr m ↦ elim (Bool-cases (length (desired_tags b) == 0)) [
      | inl z ↦
          let del = call K (on_bucket c b.name delete_tagging) in
          let f = unless no_tags_error tt "delete bucket tags: " in
          let step =
            ap (λ (u : World K). view u.svc) (world-on_error f del w)
            ∙ L.deletes_tags w.svc (
                cleared K c b view L del no_tags_error "delete bucket tags: " w (rw (m, z) at h)) in
          rw (m, z)
            (subst (TagsSettled (view w.svc)) (sym step)
              (refl, inr (sym (tags_from_map_empty (desired_tags b) z))))
      | inr z ↦
          let set = call K (on_bucket c b.name (set_tagging (tags_from_map (desired_tags b)))) in
          let step =
            ap (λ (u : World K). view u.svc) (world-wrapped "set bucket tags: " set w)
            ∙ L.sets_tags w.svc _ (wrapped-eq-ok "set bucket tags: " set w (rw (m, z) at h)) in
          rw (m, z) (subst (TagsSettled (view w.svc)) (sym step) (refl, inr refl))
    ]
  ]

  pub tags_settled :
      (w : World K)
      → (reconcile_tags K c b w).0 ≡ ok tt
      → TagsSettled (view w.svc) (view (reconcile_tags K c b w).1.svc)
  unfolding reconcile_tags
  tags_settled w h =
      let rest = put_tags K c b (desired_tags b) in
      let (v, e1, e2) = bind-eq-ok (bucket_tags K c b) rest w h in
      let (is, same) = bucket_tags_read w v e1 in
      let done = ap (λ (r : Result (Unit {0}) × World K). r.0) e2 in
      let there =
        put_tags_settled (bucket_tags K c b w).1 v (is ∙ ap (λ s. tag_map [] s.tags) (sym same))
          (sym done ∙ h) in
      subst (λ s. TagsSettled s (view (reconcile_tags K c b w).1.svc)) same
        (subst
          (λ (r : Result (Unit {0}) × World K).
            TagsSettled (view (bucket_tags K c b w).1.svc) (view r.1.svc))
          (sym e2) there)

  abbrev pub EncryptionSettled :
      Option BucketServerSideEncryptionSpec → Settings → Settings → Type 0
  EncryptionSettled wanted s t =
      (t ≡ record s { encryption = t.encryption }) × EncryptionWanted wanted t.encryption

  apply_encryption_settled :
      (wanted : Option BucketServerSideEncryptionSpec) (w : World K)
      (current : Option BucketEncryptionConfiguration)
      → current ≡ (view w.svc).encryption
      → (apply_encryption K c b wanted current w).0 ≡ ok tt
      → EncryptionSettled wanted (view w.svc) (view (apply_encryption K c b wanted current w).1.svc)
  unfolding apply_encryption clear_encryption put_encryption pure call
  apply_encryption_settled none w none is h = (refl, sym is)
  apply_encryption_settled none w (some x) is h =
      let del = call K (on_bucket c b.name delete_encryption) in
      let f = unless no_encryption_error tt "delete bucket encryption: " in
      let step =
        ap (λ (u : World K). view u.svc) (world-on_error f del w)
        ∙ L.deletes_encryption w.svc
            (cleared K c b view L del no_encryption_error "delete bucket encryption: " w h) in
      subst (EncryptionSettled none (view w.svc)) (sym step) (refl, refl)
  apply_encryption_settled (some spec) w current is h =
      let set = call K (on_bucket c b.name (set_encryption (encryption_config spec))) in
      put_ok "set bucket encryption: " (encryption_matches current (encryption_config spec)) set w
        (λ u. EncryptionSettled (some spec) (view w.svc) (view u.svc)) h
        (λ m. (refl, ap (λ x. encryption_matches x (encryption_config spec)) (sym is) ∙ m))
        (λ m wrote.
          subst (EncryptionSettled (some spec) (view w.svc))
            (sym (L.sets_encryption w.svc (encryption_config spec) wrote))
            (refl, encryption_matches_self (encryption_config spec)))

  pub encryption_settled :
      (w : World K)
      → (reconcile_encryption K c b w).0 ≡ ok tt
      → EncryptionSettled b.spec.server_side_encryption
          (view w.svc)
          (view (reconcile_encryption K c b w).1.svc)
  unfolding reconcile_encryption
  encryption_settled w h =
      let f = unless no_current_encryption_error none "read bucket encryption: " in
      let read = on_error f (call K (on_bucket c b.name get_encryption)) in
      let rest = apply_encryption K c b b.spec.server_side_encryption in
      let (v, e1, e2) = bind-eq-ok read rest w h in
      let is =
        read_or K c b view L get_encryption no_current_encryption_error none
          "read bucket encryption: " (λ s. s.encryption) L.reads_encryption L.no_encryption w v
          e1 in
      let same = world-read_or K c b view L get_encryption f tt w in
      let done = ap (λ (r : Result (Unit {0}) × World K). r.0) e2 in
      let there =
        apply_encryption_settled b.spec.server_side_encryption (read w).1 v
          (is ∙ ap (λ s. s.encryption) (sym same)) (sym done ∙ h) in
      subst
        (λ s.
          EncryptionSettled b.spec.server_side_encryption s
            (view (reconcile_encryption K c b w).1.svc))
        same
        (subst
          (λ (r : Result (Unit {0}) × World K).
            EncryptionSettled b.spec.server_side_encryption (view (read w).1.svc) (view r.1.svc))
          (sym e2) there)
