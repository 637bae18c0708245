-- ===== src/Storage.antt =====
-- internal/storage: the limit on the space of the database's files, its saved state and its alerts.
pub mod Slots
pub mod Physical
mod Examples
