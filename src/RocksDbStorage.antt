-- ===== src/RocksDbStorage.antt =====
-- include/durastash/rocksdb_storage.h, src/rocksdb_storage.cpp and src/storage.cpp: `IStorage` over
-- RocksDB. The mutex is a field, so that a second lock by the same call is seen.
pub mod Locks
pub mod Ranges
pub mod Scan
pub mod Refines
use durastash.Prelude.{
  ℕ, ◌+◌, Bool, true, false, not, ◌&&◌, ◌||◌, Option, none, some, List, [], ◌∷◌, Bytes, ltb, leb,
  if◌then◌else◌,
}
use durastash.Prelude.Text.{bytes_le, starts_with}
use durastash.Outcome.{Outcome, ok, throw, deadlock, trap, M, pure, gets, ◌>>=◌, ◌>>◌}
use durastash.RocksDb.{RocksDb}
use durastash.Storage.{IStorage}

pub record RocksState (db : RocksDb) : Type 0 where
  pub disk : db.Disk
  -- whether `db_` holds a database
  pub db_set : Bool
  pub current_batch : Option db.WriteBatch
  pub initialized : Bool
  pub locked : Bool

-- The loop of `Scan`, with the entries that the iterator has before it.
unfoldable pub scan_loop : Bytes → ℕ → ℕ → List (Bytes × Bytes) → ℕ × List (Bytes × Bytes)
scan_loop end_key limit count [] = (count, [])
scan_loop end_key limit count ((k, v) ∷ rest) =
    let more = scan_loop end_key limit (count + 1) rest in
    if bytes_le k end_key
    then (if ltb 0 limit && leb limit (count + 1)
        then (count + 1, (k, v) ∷ [])
        else (more.0, (k, v) ∷ more.1))
    else (count, [])

-- The loop of `ScanPrefix`.
unfoldable pub scan_prefix_loop : Bytes → ℕ → List (Bytes × Bytes) → ℕ × List (Bytes × Bytes)
scan_prefix_loop prefix count [] = (count, [])
scan_prefix_loop prefix count ((k, v) ∷ rest) =
    let more = scan_prefix_loop prefix (count + 1) rest in
    if starts_with prefix k then (more.0, (k, v) ∷ more.1) else (count, [])

module _ (db : RocksDb) where
  open db use {
    Disk, open_db, close_db, db_put, db_get, db_delete, new_batch, batch_put, batch_delete,
    db_write, seek,
  }

  -- A new object over the files of the databases.
  unfoldable pub new_storage : Disk → RocksState db
  new_storage d = record {
    disk = d;
    db_set = false;
    current_batch = none;
    initialized = false;
    locked = false;
  }

  module _ {A : Type 0} where
    -- The end of a `std::lock_guard`, also when an exception leaves the block.
    unfoldable pub release : Outcome A × RocksState db → Outcome A × RocksState db
    release (ok a, s) = (ok a, record s { locked = false })
    release (throw e, s) = (throw e, record s { locked = false })
    release (deadlock, s) = (deadlock, s)
    release (trap, s) = (trap, s)

    -- `std::lock_guard<std::mutex> lock(mutex_)` around a block.
    unfoldable pub with_lock : M (RocksState db) A → M (RocksState db) A
    unfolding release
    with_lock m s = if s.locked then (deadlock, s) else release (m (record s { locked = true }))

  -- `initialized_ && db_`
  abbrev pub is_open : RocksState db → Bool
  is_open s = s.initialized && s.db_set

  initialize_body : Bytes → M (RocksState db) Bool
  initialize_body db_path s =
      let (done, d) = open_db db_path s.disk in
      if s.initialized
      then (ok true, s)
      else if not done
      then (ok false, record s { disk = d })
      else (ok true, record s { disk = d; db_set = true; initialized = true })

  unfoldable pub initialize : Bytes → M (RocksState db) Bool
  unfolding initialize_body with_lock
  initialize db_path = with_lock (initialize_body db_path)

  unfoldable pub rollback_batch : M (RocksState db) (Unit {0})
  unfolding with_lock
  rollback_batch = with_lock (λ s. (ok tt, record s { current_batch = none }))

  close_body : M (RocksState db) (Unit {0})
  close_body s =
      if s.db_set
      then (ok tt, record s { disk = close_db s.disk; db_set = false; initialized = false })
      else (ok tt, record s { initialized = false })

  -- The call of `RollbackBatch` locks the mutex again.
  rollback_open_batch : Option db.WriteBatch → M (RocksState db) (Unit {0})
  rollback_open_batch (some b) = rollback_batch
  rollback_open_batch none = pure tt

  unfoldable pub shutdown : M (RocksState db) (Unit {0})
  unfolding with_lock rollback_open_batch rollback_batch close_body
  shutdown =
      with_lock (do batch ← gets (λ s. s.current_batch); rollback_open_batch batch; close_body)

  put_body : Bytes → Bytes → M (RocksState db) Bool
  put_body key value s =
      let (done, d) = db_put key value s.disk in
      if is_open s then (ok done, record s { disk = d }) else (ok false, s)

  unfoldable pub put : Bytes → Bytes → M (RocksState db) Bool
  unfolding put_body with_lock
  put key value = with_lock (put_body key value)

  get_body : Bytes → M (RocksState db) (Option Bytes)
  get_body key s = if is_open s then (ok (db_get key s.disk), s) else (ok none, s)

  unfoldable pub get : Bytes → M (RocksState db) (Option Bytes)
  unfolding get_body with_lock
  get key = with_lock (get_body key)

  delete_body : Bytes → M (RocksState db) Bool
  delete_body key s =
      let (done, d) = db_delete key s.disk in
      if is_open s then (ok done, record s { disk = d }) else (ok false, s)

  unfoldable pub delete : Bytes → M (RocksState db) Bool
  unfolding delete_body with_lock
  delete key = with_lock (delete_body key)

  is_found : Option Bytes → Bool
  is_found none = false
  is_found (some v) = true

  unfoldable pub exists : Bytes → M (RocksState db) Bool
  unfolding get is_found
  exists key = do found ← get key; pure (is_found found)

  scan_body : Bytes → Bytes → ℕ → M (RocksState db) (ℕ × List (Bytes × Bytes))
  scan_body start_key end_key limit s =
      if is_open s
      then (ok (scan_loop end_key limit 0 (seek start_key s.disk)), s)
      else (ok (0, []), s)

  unfoldable pub scan : Bytes → Bytes → ℕ → M (RocksState db) (ℕ × List (Bytes × Bytes))
  unfolding scan_body with_lock
  scan start_key end_key limit = with_lock (scan_body start_key end_key limit)

  -- `prefix_end` of the source is computed and not used.
  scan_prefix_body : Bytes → M (RocksState db) (ℕ × List (Bytes × Bytes))
  scan_prefix_body prefix s =
      if is_open s
      then (ok (scan_prefix_loop prefix 0 (seek prefix s.disk)), s)
      else (ok (0, []), s)

  unfoldable pub scan_prefix : Bytes → M (RocksState db) (ℕ × List (Bytes × Bytes))
  unfolding scan_prefix_body with_lock
  scan_prefix prefix = with_lock (scan_prefix_body prefix)

  begin_new : Option db.WriteBatch → M (RocksState db) Bool
  begin_new (some b) s = (ok false, s)
  begin_new none s = (ok true, record s { current_batch = some new_batch })

  begin_body : M (RocksState db) Bool
  unfolding begin_new
  begin_body s = if is_open s then begin_new s.current_batch s else (ok false, s)

  unfoldable pub begin_batch : M (RocksState db) Bool
  unfolding begin_body with_lock
  begin_batch = with_lock begin_body

  -- A change of the open batch; without one the call does nothing.
  edit_batch : Option db.WriteBatch → (db.WriteBatch → db.WriteBatch) → M (RocksState db) (Unit {0})
  edit_batch none f s = (ok tt, s)
  edit_batch (some b) f s = (ok tt, record s { current_batch = some (f b) })

  unfoldable pub put_to_batch : Bytes → Bytes → M (RocksState db) (Unit {0})
  unfolding edit_batch with_lock
  put_to_batch key value = with_lock (λ s. edit_batch s.current_batch (batch_put key value) s)

  unfoldable pub delete_from_batch : Bytes → M (RocksState db) (Unit {0})
  unfolding edit_batch with_lock
  delete_from_batch key = with_lock (λ s. edit_batch s.current_batch (batch_delete key) s)

  write_batch : Option db.WriteBatch → M (RocksState db) Bool
  write_batch none s = (ok false, s)
  write_batch (some b) s =
      let (done, d) = db_write b s.disk in (ok done, record s { disk = d; current_batch = none })

  commit_body : M (RocksState db) Bool
  unfolding write_batch
  commit_body s = if is_open s then write_batch s.current_batch s else (ok false, s)

  unfoldable pub commit_batch : M (RocksState db) Bool
  unfolding commit_body with_lock
  commit_batch = with_lock commit_body

  -- `CreateStorage()`: the interface that the other components are given.
  -- `~RocksDBStorage()`
  unfoldable pub destroy : M (RocksState db) (Unit {0})
  unfolding shutdown
  destroy = shutdown

  abbrev pub create_storage : IStorage
  create_storage = record {
    State = RocksState db;
    initialize = initialize;
    shutdown = shutdown;
    put = put;
    get = get;
    delete = delete;
    exists = exists;
    scan = scan;
    scan_prefix = scan_prefix;
    begin_batch = begin_batch;
    put_to_batch = put_to_batch;
    delete_from_batch = delete_from_batch;
    commit_batch = commit_batch;
    rollback_batch = rollback_batch;
    destroy = destroy;
  }
