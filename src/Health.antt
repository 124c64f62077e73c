-- ===== src/Health.antt =====
-- internal/health: how many workers and connections the program is given, and the health check.
pub mod Resources
pub mod Check
