-- ===== src/Events.antt =====
-- internal/events: the store of received events (repository.go) and the live feed (service.go).
pub mod Repository
pub mod Feed
