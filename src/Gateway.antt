-- ===== src/Gateway.antt =====
-- server/internal/gateway: the unprivileged web gateway, between the browser and the local sockets.
pub mod Limiter
pub mod Session
pub mod Login
