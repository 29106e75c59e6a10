-- ===== src/Socket.antt =====
-- server/internal/wsapi: the channels of a WebSocket connection.
pub mod Channels
pub mod Connection
pub mod Replay
