-- ===== src/Broker.antt =====
-- server/internal/broker: the root process that carries out privileged actions.
pub mod Request
pub mod Audit
pub mod Host
pub mod Authorise
pub mod Handlers
pub mod Server
pub mod Systemd
