-- ===== src/Lib.antt =====
-- obs-operator is a Kubernetes operator for OBS buckets. This library models its two controllers and
-- its provider package.
--
-- The program. Two reconcilers share a `ProviderResolver` and its client cache. The ProviderConfig
-- reconciler resolves a ProviderConfig to an OBS client, validates the client, drops it from the
-- cache on a failure and writes a Ready condition. The Bucket reconciler resolves the client of a
-- Bucket, observes the remote bucket, and then claims, creates, updates or deletes it, with a
-- finalizer on the Bucket as the mark of ownership. Events reach them through predicates and
-- indexes.
--
-- The files.
-- Base: shared names, Boolean tests, association lists (Base.Dict) and texts (Base.Text).
-- Errors: Go errors as a tree, with `errors.Is`, `errors.As` and `Error()`.
-- Api: api/v1alpha1/bucket_types.go and providerconfig_types.go, by the fields that are used.
-- Services: what is called and not implemented here, one record of functions: the API server, the
--   OBS client library and service, `net/url`, SHA-256 and helpers of apimachinery. Services.Action
--   is the monad of Go functions over it, Services.Trace and Services.Run its lemmas.
-- Provider: internal/provider. Provider.Cache is cache.go, method by method, on values, and
--   Provider.Cache.Pointers the same methods with the pointers that they hand out, on the heap of
--   DeepCopy.Memory; Provider.Credentials, Provider.Endpoint and Provider.Resolver are
--   provider_resolver.go.
-- BucketController: internal/controller/bucket_controller.go. BucketController.Reconcile is
--   `Reconcile`, cut at its early returns; Lifecycle has `observe`, `create` and
--   `resolveBucketClient`; Update has `update` and its six steps; Settings and Acl have what they
--   compare; Destroy has `delete` and `deleteAllBucketObjects`; Status has `patchStatus`,
--   `updateBucketStatus` and `patchFinalizer`; ErrorKinds has the classification of errors and the
--   Ready condition; Watch has the predicate, the index and the mapping of events.
-- ProviderConfigController: internal/controller/providerconfig_controller.go, in Reconcile and
--   Watch.
-- Main: cmd/main.go. Main.Options has the flags and the options of the servers, Main.Setup the
--   `SetupWithManager` of both controllers, Main.Start is `main`. controller-runtime's manager is a
--   parameter, a `Runtime`.
-- DeepCopy: api/v1alpha1/zz_generated.deepcopy.go, on a heap. DeepCopy.Memory is the heap,
--   DeepCopy.Structs and DeepCopy.Slots the structs as they stand in it, DeepCopy.Copy and
--   DeepCopy.Objects the functions, DeepCopy.Readings what the structs in memory read as.
-- Operator: the two controllers together on the client cache that they share, as a relation of
--   reconciles that follow one another.
-- Sample and Tests: a service in memory with the laws that it keeps (Sample.Laws) and fixtures
--   (Sample.Fixtures, Sample.Watching, Sample.Copies, Sample.Living,
--   Sample.Building), and the properties at concrete inputs.
--
-- How state corresponds. A world is the state of the services, the client cache and the requests
-- made so far. A Go function with an error result is an action on worlds that returns a value or an
-- error; its definition has the function's name in this library's spelling, and a helper such as
-- `create_failed` or `put_tags` is the part of the function behind a test or an early return.
-- Functions that close clients run them one by one, in order. Actions are sequential; that
-- reconcilers run side by side is modelled where they share state, as interleaved steps on the
-- cache.
--
-- Loops and bounds. `deleteAllBucketObjects` has no bound and runs on fuel here, one unit for each
-- round; a round that goes on has deleted a page that is not empty, so the fuel needed is bounded by
-- the number of versions and delete markers, under the law of the service that the record
-- `ListsAndDeletes` states. All other loops are over lists. The program does no arithmetic on
-- machine integers beyond comparisons of lengths and status codes.
--
-- Pointers. The controllers work on values here: a Go object that a function writes in place is a
-- new value that is handed on. The deep copies and the cache, whose copies are there to prevent
-- aliasing, run on a heap whose cells are known by addresses; a heap grows and never frees.
--
-- Not modelled: the scheme, `flag.Parse`, the logger and the signal handler of cmd/main.go, which
-- are calls of libraries; log lines; the tests and manifests. Nil and empty slices are one, except
-- where the code tests for nil; the bytes of a Secret are read as text; times are numbers with 0
-- for the zero time. An OBS client is known by a number and is never nil.
pub mod Base
pub mod Errors
pub mod Api
pub mod Services
pub mod Provider
pub mod BucketController
pub mod ProviderConfigController
pub mod Main
pub mod DeepCopy
pub mod Operator
pub mod Sample
pub mod Tests
