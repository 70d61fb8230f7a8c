-- ===== src/Provider.antt =====
-- The package internal/provider: credentials, endpoints, the client cache and the resolver.
pub mod Cache
pub mod Credentials
pub mod Endpoint
pub mod Resolver
