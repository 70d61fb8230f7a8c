-- ===== src/Tests/Updating.antt =====
-- The properties of the bucket's settings and of emptying it, at concrete inputs.
use obs_operator.Sample.{meta}
use obs_operator.BucketController.Acl.Private.{flatten_canned_acl-private}
use obs_operator.BucketController.Acl.{grant_signature, owner_grant}
use obs_operator.Base.{map}
use obs_operator.Sample.{constants, private_acl}
use obs_operator.Sample.Laws.{constants-PrivateIsOther, private_grants}
use obs_operator.Base.{◌≡◌, ◌≢◌, refl, true, [], ◌∷◌, arith, nat_eq, string_eq, option_eq}
use obs_operator.Base.Dict.{lookup, insert}
use obs_operator.Errors.{ok, sentinel_eq}
use obs_operator.Api.{namespaced_name_eq}
use obs_operator.Services.Trace.{All}
use obs_operator.Services.Action.{running}
use obs_operator.Provider.Cache.{cache_key_eq}
use obs_operator.Provider.Cache.Counts.{obs_client_eq}
use obs_operator.BucketController.Destroy.{
  delete_all_objects, delete_round, delete_page, next_round, page_objects, unfinished,
}
use obs_operator.BucketController.Destroy.Emptying.{
  delete_all_objects_empties, delete_all_objects_terminates, without, object_version_eq,
}
use obs_operator.BucketController.Update.{
  no_tags_error, no_current_encryption_error, run_steps, put_storage_class, reconcile_storage_class,
  put_acl, reconcile_acl, put_versioning, reconcile_versioning, bucket_tags, put_tags,
  reconcile_tags, put_logging, reconcile_logging, clear_encryption, put_encryption,
  apply_encryption, reconcile_encryption, update,
}
use obs_operator.BucketController.Acl.{
  flatten_canned_acl, acl_matches, flatten_grants, all_in, grant_signature, normalize_grant_uri,
  grant_signature_eq,
}
use obs_operator.BucketController.Settings.{
  normalize_storage_class, bucket_storage_class, bucket_acl, bucket_versioning, desired_tags,
  tag_map, maps_equal, all_entries_in, tags_from_map, sort_strings, insert_sorted, value_at,
  logging_input, logging_matches, encryption_config, encryption_matches,
}
use obs_operator.BucketController.Update.Service.{IsInSync}
use obs_operator.BucketController.Update.Convergence.{update-IsInSync}
use obs_operator.BucketController.Update.Quiet.{
  IsReadOf, from_now, update-IsReadOf, update_again-IsReadOf,
}
use obs_operator.BucketController.Settings.Tags.{maps_equal-tags_from_map}
use obs_operator.Sample
use obs_operator.Sample.{Store, services, secret, blank_secret, config, client, meta}
use obs_operator.Sample.Laws.{services-ListsAndDeletes, services-KeepsSettings}
use obs_operator.Sample.Fixtures.{here, bucket, world, two_tags, settled_world}

delete_all_objects_terminates_example :
    (delete_all_objects here client "data" 3 world).0 ≢ ok unfinished
delete_all_objects_terminates_example =
    delete_all_objects_terminates here client "data" (λ s. s.objects)
      (services-ListsAndDeletes secret "data") 3 world (omega arith)

delete_all_objects_empties_example :
    (delete_all_objects here client "data" 3 world).1.svc.objects ≡ []
unfolding delete_all_objects delete_round delete_page next_round page_objects running without
    object_version_eq Sample.perform Sample.ask
delete_all_objects_empties_example =
    delete_all_objects_empties here client "data" (λ s. s.objects)
      (services-ListsAndDeletes secret "data") 3 world refl

update-IsInSync_example : IsInSync here bucket (update here client bucket world).1.svc.settings
unfolding no_tags_error no_current_encryption_error running Sample.perform Sample.ask update
    run_steps reconcile_storage_class put_storage_class reconcile_acl put_acl reconcile_versioning
    put_versioning bucket_tags put_tags reconcile_tags put_logging reconcile_logging
    clear_encryption put_encryption apply_encryption reconcile_encryption normalize_storage_class
    bucket_storage_class bucket_acl bucket_versioning desired_tags tag_map maps_equal all_entries_in
    tags_from_map sort_strings insert_sorted value_at logging_input logging_matches
    encryption_config encryption_matches flatten_canned_acl string_eq option_eq nat_eq lookup insert
update-IsInSync_example =
    update-IsInSync here client bucket (λ s. s.settings) (services-KeepsSettings secret "data")
      world (refl, tt) refl

update_again-IsReadOf_example :
    ((update here client bucket (from_now (update here client bucket world).1)).1.svc.settings
      ≡ (update here client bucket world).1.svc.settings)
    × All
        (IsReadOf "data")
        (update here client bucket (from_now (update here client bucket world).1)).1.trace
unfolding no_tags_error no_current_encryption_error running Sample.perform Sample.ask update
    run_steps reconcile_storage_class put_storage_class reconcile_acl put_acl reconcile_versioning
    put_versioning bucket_tags put_tags reconcile_tags put_logging reconcile_logging
    clear_encryption put_encryption apply_encryption reconcile_encryption normalize_storage_class
    bucket_storage_class bucket_acl bucket_versioning desired_tags tag_map maps_equal all_entries_in
    tags_from_map sort_strings insert_sorted value_at logging_input logging_matches
    encryption_config encryption_matches flatten_canned_acl string_eq option_eq nat_eq lookup insert
update_again-IsReadOf_example =
    update_again-IsReadOf here client bucket (λ s. s.settings)
      (services-KeepsSettings secret "data") world (refl, tt) refl

update-IsReadOf_example :
    ((update here client bucket settled_world).1.svc.settings ≡ settled_world.svc.settings)
    × All (IsReadOf "data") (update here client bucket settled_world).1.trace
unfolding acl_matches flatten_grants all_in grant_signature normalize_grant_uri grant_signature_eq
    no_tags_error no_current_encryption_error running Sample.perform Sample.ask update run_steps
    reconcile_storage_class put_storage_class reconcile_acl put_acl reconcile_versioning
    put_versioning bucket_tags put_tags reconcile_tags put_logging reconcile_logging
    clear_encryption put_encryption apply_encryption reconcile_encryption normalize_storage_class
    bucket_storage_class bucket_acl bucket_versioning desired_tags tag_map maps_equal all_entries_in
    tags_from_map sort_strings insert_sorted value_at logging_input logging_matches
    encryption_config encryption_matches flatten_canned_acl string_eq option_eq nat_eq lookup insert
update-IsReadOf_example =
    update-IsReadOf here client bucket (λ s. s.settings) (services-KeepsSettings secret "data")
      settled_world (refl, refl, refl, refl, refl, refl) tt

maps_equal-tags_from_map_example : maps_equal (tag_map [] (tags_from_map two_tags)) two_tags ≡ true
unfolding lookup string_eq
maps_equal-tags_from_map_example = maps_equal-tags_from_map two_tags (refl, (refl, tt))

flatten_canned_acl-private_example :
    map (grant_signature constants) private_acl.grants ≡ owner_grant constants "owner" ∷ []
flatten_canned_acl-private_example =
    flatten_canned_acl-private constants private_acl constants-PrivateIsOther private_grants
