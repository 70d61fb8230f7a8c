-- ===== src/BucketController/Watch/Enqueue.antt =====
-- Which Buckets `bucketsForProviderConfig` enqueues, when the API server lists by the index that
-- `SetupWithManager` registers.
use obs_operator.Base.{
  String, ◌≡◌, ◌≢◌, refl, ap, ◌∙◌, Bool, ◌&&◌, List, [], ◌==◌, contains, string_eq,
}
use obs_operator.Base.Select.{select, any, any_alike, contains-map, contains-singleton}
use obs_operator.Errors.{Result, ok, err}
use obs_operator.Api.{NamespacedName, ObjectMeta, Bucket, namespaced_name_eq}
use obs_operator.Services.{Services, list_bucket_objects}
use obs_operator.Services.Action.{World, pure, call}
use obs_operator.Services.Run.{handle_ok, result-call}
use obs_operator.BucketController.Watch.{
  bucket_object, provider_config_ref_index, bucket_request, buckets_for_provider_config,
}

abbrev pub is_indexed : String → String → Bucket → Bool
is_indexed namespace name b =
    b.namespace == namespace && contains (provider_config_ref_index (bucket_object b)) name

-- A list by namespace and index key gives the stored Buckets that the indexer files under the key.
pub record ListsBuckets (K : Services) (stored : K.State → List Bucket) : Type 0 where
  pub at :
      (namespace name : String) (s : K.State)
      → (K.perform (list_bucket_objects namespace name) s).0
        ≡ ok (select (is_indexed namespace name) (stored s))

-- The Bucket refers to the ProviderConfig and is the one that the request names.
abbrev pub refers : ObjectMeta → NamespacedName → Bucket → Bool
refers c r b =
    (b.namespace == c.namespace && b.spec.provider_config_ref.name == c.name)
    && r == bucket_request b

abbrev pub requests_of : Result (List NamespacedName) → List NamespacedName
requests_of (ok rs) = rs
requests_of (err _) = []

indexed :
    (name : String) (b : Bucket)
    → name ≢ ""
    → contains (provider_config_ref_index (bucket_object b)) name
      ≡ (b.spec.provider_config_ref.name == name)
unfolding provider_config_ref_index
indexed name b h = contains-singleton "" b.spec.provider_config_ref.name name h

-- On a change of a ProviderConfig, a Bucket is enqueued exactly if it stands in the namespace of
-- the ProviderConfig and refers to it by name.
pub buckets_for_provider_config-refers :
    (K : Services) (stored : K.State → List Bucket)
    → ListsBuckets K stored
    → (c : ObjectMeta) (r : NamespacedName) (w : World K) → c.name ≢ ""
    → contains (requests_of (buckets_for_provider_config K c w).0) r
      ≡ any (refers c r) (stored w.svc)
unfolding buckets_for_provider_config pure
buckets_for_provider_config-refers K stored lists c r w h =
    ap (λ p. contains (requests_of p.0) r) (handle_ok _ _ _ w listed)
    ∙ contains-map bucket_request (is_indexed c.namespace c.name) r (stored w.svc)
    ∙ any_alike (λ b. is_indexed c.namespace c.name b && r == bucket_request b) (refers c r)
        (λ b. rw (indexed c.name b h) refl) (stored w.svc)
  where
    listed :
        (call K (list_bucket_objects c.namespace c.name) w).0
        ≡ ok (select (is_indexed c.namespace c.name) (stored w.svc))
    listed =
        result-call K (list_bucket_objects c.namespace c.name) w ∙ lists.at c.namespace c.name w.svc
