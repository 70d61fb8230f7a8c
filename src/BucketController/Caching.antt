-- ===== src/BucketController/Caching.antt =====
-- What a reconcile of a Bucket does to the client cache: it resolves a client, and nothing else of
-- `Reconcile` touches the cache.
pub mod Settings
pub mod Deletion
pub mod Whole
