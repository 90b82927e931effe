-- ===== src/RocksDb.antt =====
-- RocksDB as the storage uses it. It is a third-party library, so its calls are a parameter, and what
-- its documentation promises of them is a record of laws. A status is `true` where it is ok.
use durastash.Prelude.{
  ◌≡◌, ◌↔◌, Bool, true, false, Option, none, some, List, [], ◌∷◌, ◌++◌, Bytes, if◌then◌else◌,
}
use durastash.Prelude.Text.{bytes_eq, bytes_lt}
use durastash.Contents.{Write, put, delete, apply_writes, Elem, IsAscending}

pub record RocksDb : Type 1 where
  -- the files of the databases, open or not
  pub Disk : Type 0
  pub open_db : Bytes → Disk → Bool × Disk
  -- what `db_.reset()` does to the files
  pub close_db : Disk → Disk
  pub db_put : Bytes → Bytes → Disk → Bool × Disk
  pub db_get : Bytes → Disk → Option Bytes
  pub db_delete : Bytes → Disk → Bool × Disk
  pub WriteBatch : Type 0
  pub new_batch : WriteBatch
  pub batch_put : Bytes → Bytes → WriteBatch → WriteBatch
  pub batch_delete : Bytes → WriteBatch → WriteBatch
  pub db_write : WriteBatch → Disk → Bool × Disk
  -- the entries that a new iterator passes, from `Seek(start)` by `Next()` until it is not `Valid()`
  pub seek : Bytes → Disk → List (Bytes × Bytes)

pub record RocksDbLaws (db : RocksDb) : Type 0 where
  pub put_ok :
      (k v : Bytes) (d : db.Disk)
      → (db.db_put k v d).0 ≡ true
      → (j : Bytes)
      → db.db_get j (db.db_put k v d).1 ≡ (if bytes_eq k j then some v else db.db_get j d)
  pub delete_ok :
      (k : Bytes) (d : db.Disk)
      → (db.db_delete k d).0 ≡ true
      → (j : Bytes)
      → db.db_get j (db.db_delete k d).1 ≡ (if bytes_eq k j then none else db.db_get j d)
  -- a batch is the list of its updates, in the order of insertion
  pub updates : db.WriteBatch → List Write
  pub updates-new : updates db.new_batch ≡ []
  pub updates-put :
      (k v : Bytes) (b : db.WriteBatch) → updates (db.batch_put k v b) ≡ updates b ++ (put k v ∷ [])
  pub updates-delete :
      (k : Bytes) (b : db.WriteBatch) → updates (db.batch_delete k b) ≡ updates b ++ (delete k ∷ [])
  -- a successful write applies the whole batch
  pub write_ok :
      (b : db.WriteBatch) (d : db.Disk)
      → (db.db_write b d).0 ≡ true
      → (j : Bytes)
      → db.db_get j (db.db_write b d).1 ≡ apply_writes (updates b) (λ k. db.db_get k d) j
  -- an iterator passes the entries from its start on, each once, in the order of the keys
  pub seek_iff :
      (start : Bytes) (d : db.Disk) (k v : Bytes)
      → Elem (k, v) (db.seek start d) ↔ ((bytes_lt k start ≡ false) × (db.db_get k d ≡ some v))
  pub seek_ascending : (start : Bytes) (d : db.Disk) → IsAscending (db.seek start d)
