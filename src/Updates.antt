-- ===== src/Updates.antt =====
-- server/internal/updates: package updates by a saved plan.
pub mod Planning
pub mod Worker
