-- ===== src/Media.antt =====
-- internal/media: what the player needs to know of a recording and of a failure, the gate that all
-- YouTube work of the process shares.
pub mod Errors
pub mod Admission
pub mod Track
pub mod Cache
pub mod Ranking
pub mod Matching
pub mod Limiter
mod Examples
