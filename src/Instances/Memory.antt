-- ===== src/Instances/Memory.antt =====
-- The managers over the storage of a database in memory.
use durastash.Prelude.{◌≡◌, arith, Bytes, codes, true, false, none, pos}
use durastash.Storage.Contract.{StorageLaws}
use durastash.Outcome.{ok}
use durastash.RocksDbStorage
use durastash.RocksDbStorage.{RocksState, create_storage}
use durastash.RocksDbStorage.Refines.{storage_laws}
use durastash.Types.{BatchMetadata, pending}
use durastash.Env.{Env, World}
use durastash.BatchManager.{BatchManager}
use durastash.Instances.Counting.{counting}
use durastash.Instances.SortedEntries.{Entries}
use durastash.Instances.Database.{memory_db, memory_db_laws}
use durastash.Instances.Objects.{plain_objects}

abbrev pub memory_env : Env
memory_env = record { storage = create_storage memory_db; json = plain_objects; system = counting }

abbrev pub laws : StorageLaws (create_storage memory_db)
laws = storage_laws memory_db memory_db_laws

-- An open storage with these entries.
abbrev pub opened : Entries → RocksState memory_db
opened l = record {
  disk = l;
  db_set = true;
  current_batch = none;
  initialized = true;
  locked = false;
}

abbrev pub world : Entries → World memory_env
world l = record { store = opened l; host = 0 }

-- No write of the database fails.
pub writes :
    (k v : Bytes) (store : RocksState memory_db)
    → laws.Ready store
    → (RocksDbStorage.put memory_db k v store).0 ≡ ok true
unfolding RocksDbStorage.put
writes k v store ready = ground (arith, ready)

abbrev pub bm : BatchManager
bm = record { storage_set = true }

abbrev pub group : Bytes
group = codes "g"

abbrev pub session : Bytes
session = codes "s"

abbrev pub batch : Bytes
batch = codes "b"

abbrev pub metadata : BatchMetadata
metadata = record {
  batch_id = batch;
  sequence_start = pos 0;
  sequence_end = pos 1;
  status = pending;
  created_at = pos 7;
  loaded_at = pos 0;
}
