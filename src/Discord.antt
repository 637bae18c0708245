-- ===== src/Discord.antt =====
-- internal/discord: what the bot keeps of a guild's voice channel, and when it gives it up.
pub mod Idle
mod Examples
