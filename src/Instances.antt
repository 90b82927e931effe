-- ===== src/Instances.antt =====
-- Concrete stand-ins for the host, RocksDB and the JSON library, and runs of the theorems on them.
pub mod Counting
pub mod SortedEntries
pub mod Database
pub mod Objects
pub mod Memory
pub mod StorageRuns
pub mod UlidRuns
pub mod BatchRuns
pub mod SessionRuns
pub mod GroupRuns
pub mod QueueRuns
pub mod CallRuns
pub mod AckRuns
pub mod ResaveRuns
pub mod RestartRuns
