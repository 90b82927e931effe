-- ===== src/Lib.antt =====
-- durastash: a store of groups of values over RocksDB, with sessions, numbered values and batches that
-- are loaded and acknowledged.
--
-- The parts and the files that model them:
--   Ulid         include/durastash/ulid.h, src/ulid.cpp: identifiers with their time
--   Errors       include/durastash/errors.h: the exceptions
--   Storage      include/durastash/storage.h: the interface `IStorage`; Storage/Contract is what a
--                client may rely on
--   RocksDbStorage  include/durastash/rocksdb_storage.h, src/rocksdb_storage.cpp, src/storage.cpp
--   Types        include/durastash/types.h: batch metadata and session state, and their JSON
--   BatchManager include/durastash/batch_manager.h, src/batch_manager.cpp
--   SessionManager  include/durastash/session_manager.h, src/session_manager.cpp
--   GroupStorage include/durastash/group_storage.h, src/group_storage.cpp; GroupStorage/Queue is what a
--                client sees of a group: the list of the values that were saved, cut into batches
--   Calls        the public calls of the group storage in sequence, with heartbeats between them
-- A group storage holds a storage, a session manager and a batch manager; both managers reach the same
-- storage through `IStorage`. `Save` gives a value the next number of its group, finds or creates the
-- batch of that number, and puts the value under the data key of the batch and the number. `LoadBatch`
-- marks pending batches as loaded and reads their values; an acknowledgement deletes a batch.
--
-- Each method is a function with the name of the method in lower case. It takes the state and returns
-- an outcome and the new state: a value, an exception, a lock of a mutex that the thread already holds,
-- or a division by zero (Outcome). A method that returns early is the branch of an if; a long one has
-- helpers for what follows a lookup. Out-parameters are part of the result. Strings are lists of bytes,
-- `int64_t` is a signed integer and `uint64_t` a number, with their wrap-around written out in
-- Prelude/Int. A mutex is a field of the storage and of the group storage; the methods of the two
-- managers never lock twice, so their mutexes are left out. Each call runs as a whole; Calls lets a round of the
-- heartbeat thread come between two calls. A destructor is a function named `destroy`; that of
-- `GroupStorage` runs those of its members after its body.
-- `std::unordered_map` is an association list, and `std::sort` is insertion sort: the standard leaves
-- the order of equal elements open, and the results below say no more than that the elements are in
-- order. An exception that leaves a destructor or a heartbeat round is an outcome like any other; in
-- the program it ends the process, since no handler follows.
--
-- Parameters, since their code is not in the repository: RocksDB (RocksDb, with the laws of its
-- documentation), the JSON library (Json), the clock, the random generator and the process id (System).
-- Instances gives concrete ones that keep the laws, on which the theorems are applied.
--
-- Loops are structural recursion over a list or a count of rounds. `GenerateDataKeys` has as many
-- rounds as its range has numbers, which is enough where the range ends below the largest `int64_t`
-- (BatchManager/DataKeys). A range that ends there makes the C++ loop overflow and go on: the count
-- stops the model, so what is claimed of calls that read such ranges has a bound as a condition. For
-- the sequences of calls in Calls this means: the states they lead to are those of the program as
-- long as every call has come back.
--
-- Not modelled: the options of RocksDB, the sleep of the heartbeat thread (its round is
-- `heartbeat_round`), interleavings of threads within a call, tests and build files.
pub mod Prelude
pub mod System
pub mod Ulid
pub mod Errors
pub mod Outcome
pub mod Contents
pub mod Storage
pub mod RocksDb
pub mod RocksDbStorage
pub mod Json
pub mod Types
pub mod Env
pub mod Sorting
pub mod BatchManager
pub mod SessionManager
pub mod Maps
pub mod GroupStorage
pub mod Calls
pub mod Instances
