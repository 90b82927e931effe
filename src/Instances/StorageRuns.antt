-- ===== src/Instances/StorageRuns.antt =====
-- The theorems on the storage, at a database in memory.
use durastash.Prelude.{◌≡◌, ◌↔◌, refl, true, false, none, some, List, [], ◌∷◌, Bytes, codes, length}
use durastash.Prelude.Text.{bytes_lt, bytes_le}
use durastash.Contents.{Write, apply_writes, Elem, IsAscending}
use durastash.Contents
use durastash.Maps.{find}
use durastash.Outcome.{ok, deadlock}
use durastash.Storage.Contract.{IsScan, Wrote}
use durastash.RocksDbStorage.{RocksState, create_storage, is_open}
use durastash.RocksDbStorage
use durastash.RocksDbStorage.Refines.{Ready, contents, staged, commit_batch-Wrote}
use durastash.RocksDbStorage.Scan.{scan_prefix_exact, scan_exact}
use durastash.RocksDbStorage.Locks.{shutdown_deadlock}
use durastash.Instances.SortedEntries.{Entries}
use durastash.Instances.Database.{memory_db, memory_db_laws}
use durastash.Instances.Memory.{opened}

abbrev two : Entries
two = (codes "kb", codes "2") ∷ (codes "ka", codes "1") ∷ []

abbrev writes : List Write
writes = Contents.put (codes "kc") (codes "3") ∷ Contents.delete (codes "ka") ∷ []

abbrev started : RocksState memory_db
started = record (opened two) { current_batch = some writes }

commit_batch-Wrote_example :
    Wrote
      (create_storage memory_db)
      (Ready memory_db memory_db_laws)
      (contents memory_db memory_db_laws)
      (staged memory_db memory_db_laws)
      (apply_writes writes (contents memory_db memory_db_laws started))
      none
      (RocksDbStorage.commit_batch memory_db started)
commit_batch-Wrote_example =
    commit_batch-Wrote memory_db memory_db_laws started writes (refl, refl) refl

scan_prefix_exact_example :
    (l : Entries) × (RocksDbStorage.scan_prefix memory_db (codes "k") (opened two)
      ≡ (ok (length l, l), opened two))
    × IsScan (λ k. find k two) (codes "k") l
scan_prefix_exact_example =
    scan_prefix_exact memory_db memory_db_laws (opened two) refl refl (codes "k")

scan_exact_example :
    (l : Entries) × (RocksDbStorage.scan memory_db (codes "ka") (codes "kb") 0 (opened two)
      ≡ (ok (length l, l), opened two))
    × IsAscending l
    × ((k v : Bytes)
        → Elem (k, v) l ↔ (
            (bytes_lt k (codes "ka") ≡ false)
            × (bytes_le k (codes "kb") ≡ true)
            × (find k two ≡ some v)))
scan_exact_example =
    scan_exact memory_db memory_db_laws (opened two) refl refl (codes "ka") (codes "kb")

shutdown_deadlock_example :
    RocksDbStorage.shutdown memory_db started ≡ (deadlock, record started { locked = true })
shutdown_deadlock_example = shutdown_deadlock memory_db started refl writes refl
