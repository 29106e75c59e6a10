-- ===== src/Network.antt =====
-- server/internal/network: network changes that revert unless they are confirmed.
pub mod Config
pub mod Controller
