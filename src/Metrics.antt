-- ===== src/Metrics.antt =====
-- server/internal/system: the samples of the system's load.
pub mod Parse
pub mod Sampler
