-- ===== src/RocksDbStorage/Refines.antt =====
-- The storage over RocksDB keeps the contract of `IStorage`, if RocksDB keeps its own.
use durastash.Prelude.{
  ◌≡◌, refl, ap, ◌∙◌, arith, true, false, Option, none, some, List, [], ◌∷◌, ◌++◌, Bytes,
}
use durastash.Contents.{Contents, Write, apply_write, apply_writes}
use durastash.Contents
use durastash.Outcome.{Outcome, ok}
use durastash.RocksDb.{RocksDb, RocksDbLaws}
use durastash.Storage.Contract.{Wrote, Staged, StorageLaws}
use durastash.RocksDbStorage.{
  RocksState, is_open, put, get, begin_batch, put_to_batch, delete_from_batch, commit_batch,
  shutdown, destroy, create_storage,
}
use durastash.RocksDbStorage.Locks.{closed_calls, shutdown_closes}
use durastash.RocksDbStorage.Scan.{scan_prefix_exact}

module _ (db : RocksDb) (laws : RocksDbLaws db) where
  open db use {db_get, db_put, db_write}

  abbrev pub Ready : RocksState db → Type 0
  Ready s = (s.locked ≡ false) × (is_open db s ≡ true)

  abbrev pub contents : RocksState db → Contents
  contents s k = db_get k s.disk

  abbrev pub staged_writes : Option db.WriteBatch → Option (List Write)
  staged_writes none = none
  staged_writes (some b) = some (laws.updates b)

  abbrev pub staged : RocksState db → Option (List Write)
  staged s = staged_writes s.current_batch

  pub put-Wrote :
      (k v : Bytes) (s : RocksState db)
      → Ready s
      → Wrote
          (create_storage db)
          Ready
          contents
          staged
          (apply_write (Contents.put k v) (contents s))
          (staged s)
          (put db k v s)
  unfolding put
  put-Wrote k v s (free, opened) = record {
    done = (db_put k v s.disk).0;
    after = record s { disk = (db_put k v s.disk).1 };
    returns = ground arith;
    ready = (free, opened);
    batch = refl;
    holds = λ d j. laws.put_ok k v s.disk d j;
  }

  pub begin_opens :
      (s : RocksState db)
      → Ready s
      → staged s ≡ none
      → (s' : RocksState db) × (begin_batch db s ≡ (ok true, s'))
        × Ready s'
        × (staged s' ≡ some [])
        × ((j : Bytes) → contents s' j ≡ contents s j)
  unfolding begin_batch
  begin_opens s (free, opened) e = (
    record s { current_batch = some db.new_batch },
    ground arith,
    (free, opened),
    ap some laws.updates-new,
    λ j. refl,
  )

  pub begin_refuses :
      (s : RocksState db) (ws : List Write)
      → Ready s
      → staged s ≡ some ws
      → begin_batch db s ≡ (ok false, s)
  unfolding begin_batch
  begin_refuses s ws (free, opened) e = ground arith

  pub batch_of :
      (s : RocksState db) (ws : List Write)
      → staged s ≡ some ws
      → (b : db.WriteBatch) × (s.current_batch ≡ some b) × (laws.updates b ≡ ws)
  batch_of s ws e = go s.current_batch refl e
    where
      go :
          (o : Option db.WriteBatch)
          → s.current_batch ≡ o
          → staged_writes o ≡ some ws
          → (b : db.WriteBatch) × (s.current_batch ≡ some b) × (laws.updates b ≡ ws)
      go none p q = cc
      go (some b) p q = (b, p, cc)

  pub put_staged :
      (k v : Bytes) (s : RocksState db) (ws : List Write)
      → Ready s
      → staged s ≡ some ws
      → Staged
          (create_storage db)
          Ready
          contents
          staged
          (contents s)
          (some (ws ++ (Contents.put k v ∷ [])))
          (put_to_batch db k v s)
  unfolding put_to_batch
  put_staged k v s ws (free, opened) e =
      let (b, cur, up) = batch_of s ws e in
      record {
        after = record s { current_batch = some (db.batch_put k v b) };
        returns = ground arith;
        ready = (free, opened);
        batch = ap some (laws.updates-put k v b ∙ ap (λ t. t ++ (Contents.put k v ∷ [])) up);
        holds = λ j. refl;
      }

  pub delete_staged :
      (k : Bytes) (s : RocksState db) (ws : List Write)
      → Ready s
      → staged s ≡ some ws
      → Staged
          (create_storage db)
          Ready
          contents
          staged
          (contents s)
          (some (ws ++ (Contents.delete k ∷ [])))
          (delete_from_batch db k s)
  unfolding delete_from_batch
  delete_staged k s ws (free, opened) e =
      let (b, cur, up) = batch_of s ws e in
      record {
        after = record s { current_batch = some (db.batch_delete k b) };
        returns = ground arith;
        ready = (free, opened);
        batch = ap some (laws.updates-delete k b ∙ ap (λ t. t ++ (Contents.delete k ∷ [])) up);
        holds = λ j. refl;
      }

  -- With a batch open on an open storage with its mutex free, `CommitBatch` returns with no batch
  -- open and the mutex free, and, if it reports success, the contents are those that the batch's
  -- writes make of the old ones, in their order.
  pub commit_batch-Wrote :
      (s : RocksState db) (ws : List Write)
      → Ready s
      → staged s ≡ some ws
      → Wrote
          (create_storage db)
          Ready
          contents
          staged
          (apply_writes ws (contents s))
          none
          (commit_batch db s)
  unfolding commit_batch
  commit_batch-Wrote s ws (free, opened) e =
      let (b, cur, up) = batch_of s ws e in
      record {
        done = (db_write b s.disk).0;
        after = record s { disk = (db_write b s.disk).1; current_batch = none };
        returns = ground arith;
        ready = (free, opened);
        batch = refl;
        holds = λ d j. laws.write_ok b s.disk d j ∙ ap (λ t. apply_writes t (contents s) j) up;
      }

  pub get_reads : (k : Bytes) (s : RocksState db) → Ready s → get db k s ≡ (ok (contents s k), s)
  unfolding get
  get_reads k s (free, opened) = ground arith

  -- Shut down: no database, no open batch, and the mutex is free.
  abbrev pub Closed : RocksState db → Type 0
  Closed s = (s.locked ≡ false) × (is_open db s ≡ false) × (s.current_batch ≡ none)

  no_batch : (s : RocksState db) → staged s ≡ none → s.current_batch ≡ none
  no_batch s e = go s.current_batch refl e
    where
      go :
          (o : Option db.WriteBatch)
          → s.current_batch ≡ o
          → staged_writes o ≡ none
          → s.current_batch ≡ none
      go none p q = p
      go (some b) p q = absurd (cc q)

  shut :
      (s : RocksState db)
      → s.locked ≡ false
      → s.current_batch ≡ none
      → (s' : RocksState db) × (shutdown db s ≡ (ok tt, s')) × Closed s'
  unfolding shutdown
  shut s free empty =
      let (returned, closed, unlocked) = shutdown_closes db s free empty in
      let left : (shutdown db s).1.current_batch ≡ none = ground arith in
      (
        (shutdown db s).1,
        ap (λ (o : Outcome (Unit {0})). (o, (shutdown db s).1)) returned,
        (unlocked, closed, left),
      )

  pub shutdown-Closed :
      (s : RocksState db)
      → Ready s
      → staged s ≡ none
      → (s' : RocksState db) × (shutdown db s ≡ (ok tt, s')) × Closed s'
  shutdown-Closed s (free, opened) e = shut s free (no_batch s e)

  pub destroy-Closed :
      (s : RocksState db)
      → Closed s
      → (s' : RocksState db) × (destroy db s ≡ (ok tt, s')) × Closed s'
  unfolding destroy
  destroy-Closed s (free, closed, empty) = shut s free empty

  -- The storage that `CreateStorage` makes refines the contract of `IStorage`.
  abbrev pub storage_laws : StorageLaws (create_storage db)
  storage_laws = record {
    Ready = Ready;
    contents = contents;
    staged = staged;
    get_law = get_reads;
    put_law = put-Wrote;
    scan_prefix_law = λ p s r. scan_prefix_exact db laws s r.0 r.1 p;
    begin_law = begin_opens;
    begin_twice_law = begin_refuses;
    put_to_batch_law = put_staged;
    delete_from_batch_law = delete_staged;
    commit_law = commit_batch-Wrote;
    Closed = Closed;
    shutdown_law = shutdown-Closed;
    closed_put_law = λ k v s c. (closed_calls db s c.0 k v 0 c.1).0;
    closed_get_law = λ k s c. (closed_calls db s c.0 k [] 0 c.1).1;
    destroy_law = destroy-Closed;
  }
