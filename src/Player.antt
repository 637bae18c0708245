-- ===== src/Player.antt =====
-- internal/player: the player of one guild. Each method runs under the player's mutex, so a method
-- is a function on the state; what the environment decides (the time, the outcome of a disk write,
-- how a playback attempt ended) is an argument or a script in the state.
pub mod State
pub mod Durable
pub mod Jobs
pub mod Provider
pub mod Voice
pub mod Commands
pub mod Queue
pub mod Pause
pub mod Start
pub mod Scheduler
pub mod Finish
pub mod Horizon
pub mod Collection
pub mod Coordinator
pub mod Resolve
pub mod System
pub mod Durability
pub mod Navigation
pub mod Recovery
pub mod Tickets
pub mod Ogg
pub mod Seek
mod Examples
