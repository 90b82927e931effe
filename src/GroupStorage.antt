-- ===== src/GroupStorage.antt =====
-- include/durastash/group_storage.h and src/group_storage.cpp: groups of values over one storage, one
-- session manager and one batch manager. The mutex is a field, so that a second lock by the same call
-- is seen. `storage_`, `session_manager_` and `batch_manager_` are set by the constructor and never
-- reset, so the guards on them never hold; the two managers keep the flag of their own pointer.
pub mod State
pub mod Lifecycle
pub mod Saving
pub mod Loading
pub mod Resaving
pub mod Resaves
pub mod Consumed
pub mod ResaveKeys
pub mod ResaveWrites
pub mod Rewrites
pub mod Shutdowns
pub mod Ranges
pub mod Counters
pub mod Unknown
pub mod Saves
pub mod Loads
pub mod LoadedValues
pub mod Creates
pub mod Queue
