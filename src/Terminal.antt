-- ===== src/Terminal.antt =====
-- server/internal/terminal/terminal.go: terminals that outlive their connections.
pub mod Session
pub mod Options
pub mod Machine
