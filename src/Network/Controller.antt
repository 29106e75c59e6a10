-- ===== src/Network/Controller.antt =====
-- server/internal/network/network.go: the confirm-or-revert transaction.
-- The `backend` interface, Netplan over D-Bus, is the record `Backend` over a world `W`: each call
-- answers from the world and changes it. Every call is also written to `calls`, newest first, for
-- the statements. Times are nanoseconds since the year 1, each reading of the clock is an argument,
-- and so is the random token. A handler runs in one piece, as it does under `c.mu`.
pub mod Defs
mod Rules
pub mod Candidates
pub mod Safety
mod Examples
