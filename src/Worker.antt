-- ===== src/Worker.antt =====
-- internal/worker: the outbound rate limiter (limiter.go), the forwarding of events (service.go),
-- the claims and updates of the events table (repository.go) and the purge (cleanup.go).
pub mod Limiter
pub mod Forward
pub mod Repository
pub mod Run
pub mod Start
pub mod Cleanup
pub mod Pool
