-- ===== src/Tests/Reconciles.antt =====
-- The properties of whole reconciles, on the services of `Sample.Living` and `Sample.Fixtures`.
use obs_operator.Base.{◌+◌, ◌≤◌, ◌≡◌, refl, length, string_eq, arith}
use obs_operator.Base.{nat_eq, true}
use obs_operator.Errors.{ok}
use obs_operator.Base.Dict.{lookup}
use obs_operator.BucketController.Settings.{desired_tags}
use obs_operator.BucketController.Destroy.{finished, delete_all_objects}
use obs_operator.BucketController.Reconcile.{reconcile_resolved}
use obs_operator.BucketController.Liveness.Kept.{IsSettled, reconcile_resolved-IsSettled}
use obs_operator.BucketController.Liveness.Claimed.{reconcile_twice-IsSettled}
use obs_operator.BucketController.Liveness.Leaving.{IsReleased, reconcile_resolved-IsReleased}
use obs_operator.BucketController.Bounds.Kept.{reconcile_resolved-requests_le}
use obs_operator.BucketController.Bounds.Rounds.{delete_all_objects-requests_le}
use obs_operator.Sample
use obs_operator.Sample.{client}
use obs_operator.Sample.Laws.{services-ListsAndDeletes}
use obs_operator.Sample.Fixtures.{here, bucket, world, resolved_client}
use obs_operator.Services.Trace.{All}
use obs_operator.BucketController.Reconcile.{reconcile_bucket}
use obs_operator.BucketController.Safety.{Permitted}
use obs_operator.BucketController.Safety.Whole.{reconcile_bucket-Permitted}
use obs_operator.Sample.Living.{
  life, view, exists, held, objects, unclaimed, kept, leaving, new_world, leaving_world,
  life-Grants, kept-Grants, life-TakesPatches, life-LetsGo, adds_finalizer,
}

reconcile_resolved-IsSettled_example :
    ((reconcile_resolved life 3 kept resolved_client new_world).0 ≡ ok finished)
    × IsSettled life resolved_client kept view exists held kept-Grants life-TakesPatches
        (reconcile_resolved life 3 kept resolved_client new_world).1.svc
unfolding desired_tags string_eq lookup
reconcile_resolved-IsSettled_example =
    reconcile_resolved-IsSettled life resolved_client kept view exists held kept-Grants
      life-TakesPatches (refl, tt) refl refl 3 new_world

reconcile_twice-IsSettled_example :
    ((reconcile_resolved life 3
        (held (reconcile_resolved life 3 unclaimed resolved_client new_world).1.svc)
        resolved_client
        (reconcile_resolved life 3 unclaimed resolved_client new_world).1).0
      ≡ ok finished)
    × IsSettled life resolved_client unclaimed view exists held life-Grants life-TakesPatches
        (reconcile_resolved life 3
          (held (reconcile_resolved life 3 unclaimed resolved_client new_world).1.svc)
          resolved_client
          (reconcile_resolved life 3 unclaimed resolved_client new_world).1).1.svc
unfolding desired_tags string_eq lookup
reconcile_twice-IsSettled_example =
    reconcile_twice-IsSettled life resolved_client unclaimed view exists held life-Grants
      life-TakesPatches adds_finalizer (refl, tt) refl refl 3 new_world refl

reconcile_resolved-IsReleased_example :
    ((reconcile_resolved life 3 leaving resolved_client leaving_world).0 ≡ ok finished)
    × IsReleased life resolved_client leaving objects exists held life-LetsGo 3
        (reconcile_resolved life 3 leaving resolved_client leaving_world).1.svc
unfolding nat_eq
reconcile_resolved-IsReleased_example =
    reconcile_resolved-IsReleased life resolved_client leaving objects exists held life-LetsGo 3
      leaving_world refl refl refl (omega arith)

reconcile_resolved-requests_le_example :
    length (reconcile_resolved here 3 bucket resolved_client world).1.trace
    ≤ length world.trace + 16
reconcile_resolved-requests_le_example =
    reconcile_resolved-requests_le here bucket resolved_client 3 world refl

delete_all_objects-requests_le_example :
    length (delete_all_objects here client "data" 3 world).1.trace
    ≤ length world.trace + (2 + (length world.svc.objects + length world.svc.objects))
delete_all_objects-requests_le_example =
    delete_all_objects-requests_le here client "data" (λ s. s.objects)
      (services-ListsAndDeletes Sample.secret "data") 3 world

reconcile_bucket-Permitted_example :
    All (Permitted here bucket) (reconcile_bucket here true 3 bucket world).1.trace
reconcile_bucket-Permitted_example = reconcile_bucket-Permitted here true 3 bucket world tt
