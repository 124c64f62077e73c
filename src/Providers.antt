-- ===== src/Providers.antt =====
-- internal/providers: the service that configures providers, the cache of their settings, and the
-- headers that each provider's package forwards.
pub mod Headers
pub mod Service
pub mod Cache
