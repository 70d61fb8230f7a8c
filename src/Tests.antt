-- ===== src/Tests.antt =====
-- The properties at concrete inputs, on the service of `Sample`.
mod Caching
mod Copies
mod Operating
mod Ownership
mod Reconciles
mod Reporting
mod Resolving
mod Starting
mod Updating
