-- ===== src/ProviderConfigController.antt =====
-- The ProviderConfig controller, internal/controller/providerconfig_controller.go.
pub mod Reconcile
pub mod Watch
