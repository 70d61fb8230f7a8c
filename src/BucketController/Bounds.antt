-- ===== src/BucketController/Bounds.antt =====
-- How many requests the parts of a reconcile make.
pub mod Steps
pub mod Rounds
pub mod Kept
