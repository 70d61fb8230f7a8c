-- ===== src/BucketController.antt =====
-- The Bucket controller, internal/controller/bucket_controller.go, part by part.
pub mod Caching
pub mod Acl
pub mod Settings
pub mod ErrorKinds
pub mod Update
pub mod Destroy
pub mod Status
pub mod Lifecycle
pub mod Reconcile
pub mod Watch
pub mod Safety
pub mod Liveness
pub mod Bounds
