-- ===== src/Main.antt =====
-- The process, cmd/main.go, with `SetupWithManager` of both controllers.
pub mod Options
pub mod Http2
pub mod Setup
pub mod Start
pub mod Order
pub mod Gate
