-- ===== src/BucketController/Status/Idempotence.antt =====
-- `updateBucketStatus` behind its own patch.
use obs_operator.Base.{ℕ, ◌≡◌, refl, sym, true, false, Option, none, some, List, [], ◌∷◌}
use obs_operator.Base.{==_refl, is_some, string_eq, nat_eq, String}
use obs_operator.Errors.{ok}
use obs_operator.Api.{Bucket, BucketStatus, Condition, condition_eq}
use obs_operator.Services.{Services}
use obs_operator.Services.Action.{World, pure, handle, read_world}
use obs_operator.Provider.Cache.{ResolvedClient}
use obs_operator.BucketController.Status.{
  conditions_equal, status_changed, resolved_status, metadata_status, next_status, write_status,
  update_bucket_status,
}

pub conditions_equal_self : (cs : List Condition) → conditions_equal cs cs ≡ true
unfolding conditions_equal
conditions_equal_self [] = refl
conditions_equal_self (c ∷ cs) = rw (==_refl c, conditions_equal_self cs) refl

-- `meta.SetStatusCondition` changes nothing when it sets a condition again.
abbrev pub SetsOnce : Services → Type 0
SetsOnce K =
    (now later : ℕ) (cs : List Condition) (c : Condition)
    → K.set_status_condition later (K.set_status_condition now cs c) c
      ≡ K.set_status_condition now cs c

same_status :
    (s t : BucketStatus)
    → s.observed_generation ≡ t.observed_generation
    → s.region ≡ t.region
    → s.bucket_domain_name ≡ t.bucket_domain_name
    → s.bucket_version ≡ t.bucket_version
    → is_some s.last_sync_time ≡ true
    → s.conditions ≡ t.conditions
    → status_changed s t ≡ false
unfolding status_changed
same_status s t a b c d e f =
    rw
      (
        a,
        b,
        c,
        d,
        e,
        f,
        ==_refl t.observed_generation,
        ==_refl t.region,
        ==_refl t.bucket_domain_name,
        ==_refl t.bucket_version,
        conditions_equal_self t.conditions,
      )
      refl

module _ (K : Services) (L : SetsOnce K) where
  -- The bucket as the API server keeps it behind a status write at the time `synced`.
  abbrev pub written_bucket :
      ℕ → ℕ → Bucket → Option ResolvedClient → Condition → Option String → Bucket
  written_bucket now synced b r c m = record b {
    status = record (next_status K now b r c m) { last_sync_time = some synced };
  }

  status_settled :
      (now synced later : ℕ) (b : Bucket) (r : Option ResolvedClient) (c : Condition)
      (m : Option String)
      → status_changed
          (written_bucket now synced b r c m).status
          (next_status K later (written_bucket now synced b r c m) r c m)
        ≡ false
  unfolding next_status resolved_status metadata_status
  status_settled now synced later b none c none =
      same_status _ _ refl refl refl refl refl (sym (L now later _ c))
  status_settled now synced later b none c (some m) =
      same_status _ _ refl refl refl refl refl (sym (L now later _ c))
  status_settled now synced later b (some r) c none =
      same_status _ _ refl refl refl refl refl (sym (L now later _ c))
  status_settled now synced later b (some r) c (some m) =
      same_status _ _ refl refl refl refl refl (sym (L now later _ c))

  -- When a status was written for a resolved client, a condition and read metadata, then updating
  -- the written resource with the same three requests nothing and changes nothing, provided that
  -- setting a condition again changes nothing. So a reconcile with the same outcome leaves
  -- `lastSyncTime` as it is, at the time of the last change.
  pub update_bucket_status_again :
      (now synced : ℕ) (b : Bucket) (r : Option ResolvedClient) (c : Condition) (m : Option String)
      (w : World K)
      → update_bucket_status K (written_bucket now synced b r c m) r c m w ≡ (ok tt, w)
  unfolding update_bucket_status write_status handle read_world pure
  update_bucket_status_again now synced b r c m w =
      rw (status_settled now synced (K.now w.svc) b r c m) refl
