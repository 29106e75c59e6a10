-- ===== src/Files.antt =====
-- server/internal/files and server/internal/privfiles: the files of the user, and the protected files
-- that the broker writes.
pub mod System
pub mod Privileged
pub mod User
