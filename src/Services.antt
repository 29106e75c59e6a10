-- ===== src/Services.antt =====
-- server/internal/services: the units of systemd, and the changes that a browser is told.
-- Units: what a listing gives, and what differs between two of them. Watch: the manager that follows
-- systemd and its subscribers. Detail: what `Detail` adds. The bus is a record of functions of a
-- world, so that each call may answer anything, a timeout included.
pub mod Units
pub mod Watch
pub mod Detail
mod Examples
