-- ===== src/Http.antt =====
-- server/internal/httpapi: the REST interface of the session agent.
pub mod Envelope
pub mod Idempotency
pub mod Handlers
pub mod Local
