-- ===== src/Journal.antt =====
-- server/internal/journal: queries of the journal, which journalctl answers line by line.
pub mod Query
pub mod Entry
pub mod Cli
mod Examples
