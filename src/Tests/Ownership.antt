-- ===== src/Tests/Ownership.antt =====
-- The properties of the cache on values, at concrete inputs.
use obs_operator.Base.{
  ◌≡◌, refl, none, some, [], ◌∷◌, if◌then◌else◌, ◌==◌, nat_eq, string_eq, option_eq,
}
use obs_operator.Base.Dict.{lookup, insert, erase}
use obs_operator.Errors.{sentinel_eq}
use obs_operator.Api.{namespaced_name_eq}
use obs_operator.Provider.Cache.{
  get, set, set_over, invalidate_provider, new_resolved_client, cache_key_eq,
}
use obs_operator.Provider.Cache.Counts.{obs_client_eq}
use obs_operator.Provider.Cache.Ownership.{start, next, build, store, Accounted, Reach-Accounted}
use obs_operator.Provider.Cache.Coherence.{
  FromKey, stored, get-set, get-invalidate_provider, get-FromKey,
}
use obs_operator.BucketController.Destroy.Emptying.{object_version_eq}
use obs_operator.BucketController.Acl.{grant_signature_eq}
use obs_operator.Sample.{client}
use obs_operator.Sample.Fixtures.{
  first_key, second_key, stored_client, cached_clients, cached, first_client, pool,
}

Reach-Accounted_example : Accounted pool first_client
unfolding set set_over invalidate_provider lookup insert erase new_resolved_client cache_key_eq
    namespaced_name_eq obs_client_eq
Reach-Accounted_example = Reach-Accounted first_client (
    next
      (next (next (next start (build _ first_client refl)) (build _ client refl))
        (store _ (client ∷ []) [] first_key first_client refl))
      (store _ [] [] second_key client refl))

get-set_example : get (set cached second_key first_client).1 second_key ≡ (
    if second_key.provider_config == second_key.provider_config
    then (if second_key == second_key
        then some (stored (set cached second_key first_client).0)
        else none)
    else get cached second_key)
unfolding lookup
get-set_example =
    get-set cached_clients second_key second_key first_client
      (refl, (refl, refl, refl, refl, refl), refl, tt)

get-invalidate_provider_example :
    get (invalidate_provider cached first_key.provider_config).0 first_key ≡ (
      if first_key.provider_config == first_key.provider_config then none else get cached first_key)
unfolding lookup
get-invalidate_provider_example =
    get-invalidate_provider cached first_key.provider_config first_key
      (refl, (refl, refl, refl, refl, refl), refl, tt)

get-FromKey_example : FromKey first_key stored_client
unfolding get lookup cache_key_eq namespaced_name_eq
get-FromKey_example =
    get-FromKey cached first_key stored_client (refl, (refl, refl, refl, refl, refl), refl, tt) refl
