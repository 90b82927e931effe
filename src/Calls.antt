-- ===== src/Calls.antt =====
-- Calls of the public methods, one after the other, and the heartbeats between them.
pub mod Worlds
pub mod Sessions
pub mod Groups
pub mod Loads
pub mod Saves
pub mod Steps
pub mod Bounded
pub mod Closing
