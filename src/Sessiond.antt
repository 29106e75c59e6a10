-- ===== src/Sessiond.antt =====
-- server/internal/sessiond: the daemon that keeps the sessions and starts the users' agents.
pub mod Agent
pub mod Daemon
