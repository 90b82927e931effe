-- ===== src/RocksDbStorage/Locks.antt =====
-- The mutex and the two ways to end: `Shutdown`, and calls on a storage that is not open.
use durastash.Prelude.{◌≡◌, arith, true, false, none, some, [], Bytes, ℕ}
use durastash.Outcome.{ok, deadlock}
use durastash.RocksDb.{RocksDb}
use durastash.RocksDbStorage.{
  RocksState, is_open, shutdown, put, get, delete, exists, scan, scan_prefix, begin_batch,
  commit_batch, rollback_batch,
}

module _ (db : RocksDb) (s : RocksState db) (free : s.locked ≡ false) where
  -- With a batch open and its mutex free, `Shutdown` waits for the mutex that it holds itself, and
  -- changes nothing but the mutex.
  pub shutdown_deadlock :
      (b : db.WriteBatch)
      → s.current_batch ≡ some b
      → shutdown db s ≡ (deadlock, record s { locked = true })
  unfolding shutdown
  shutdown_deadlock b e = ground arith

  -- Without an open batch and with its mutex free, `Shutdown` returns, releases the mutex, and
  -- leaves the storage closed.
  pub shutdown_closes :
      s.current_batch ≡ none
      → ((shutdown db s).0 ≡ ok tt)
        × (is_open db (shutdown db s).1 ≡ false)
        × ((shutdown db s).1.locked ≡ false)
  unfolding shutdown
  shutdown_closes e = ground arith

  -- On a storage that is not open and has its mutex free, every call that reads, writes, begins or
  -- commits reports a failure or an empty result, and changes nothing.
  pub closed_calls :
      (k v : Bytes) (limit : ℕ)
      → is_open db s ≡ false
      → (put db k v s ≡ (ok false, s))
        × (get db k s ≡ (ok none, s))
        × (delete db k s ≡ (ok false, s))
        × (exists db k s ≡ (ok false, s))
        × (scan db k v limit s ≡ (ok (0, []), s))
        × (scan_prefix db k s ≡ (ok (0, []), s))
        × (begin_batch db s ≡ (ok false, s))
        × (commit_batch db s ≡ (ok false, s))
  unfolding put get delete exists scan scan_prefix begin_batch commit_batch
  closed_calls k v limit e = ground arith

  -- With a batch open on an open storage with its mutex free, to begin another fails, a rollback
  -- drops it without a write, and then a new one can begin.
  pub begin-rollback :
      (b : db.WriteBatch)
      → is_open db s ≡ true
      → s.current_batch ≡ some b
      → (begin_batch db s ≡ (ok false, s))
        × (rollback_batch db s ≡ (ok tt, record s { current_batch = none }))
        × ((begin_batch db (rollback_batch db s).1).0 ≡ ok true)
  unfolding begin_batch rollback_batch
  begin-rollback b e h = ground arith
