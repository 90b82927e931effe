-- ===== src/Calls/Worlds.antt =====
-- The calls of the batch manager keep the storage ready and leave no batch of writes open.
use durastash.Prelude.{
  ℕ, ◌≡◌, refl, ◌∙◌, Bool, true, false, Option, none, some, List, [], ◌∷◌, Bytes, ℤ, if◌then◌else◌,
  not,
}
use durastash.Contents.{Write}
use durastash.Outcome.{M, pure, ◌>>=◌}
use durastash.Outcome.Triples.{Holds, Keeps, seq, seq-Keeps, if-Keeps, option-Keeps}
use durastash.Storage.Contract.{StorageLaws}
use durastash.Types.{BatchMetadata, batch_metadata_from_json}
use durastash.Env.{Env, World, on_store, on_host, generate, now}
use durastash.BatchManager.{
  BatchManager, create_batch, read_metadata, get_batch_metadata, mark_read, mark_found,
  mark_batch_as_loaded, is_loaded, delete_all, acknowledge_read, acknowledge_found,
  acknowledge_batch, loadable_of, get_loadable_batches,
}

module _ (e : Env) (st : StorageLaws e.storage) where
  -- The storage is ready, and no batch of writes is open.
  abbrev pub IsIdle : World e → Type 0
  IsIdle w = st.Ready w.store × (st.staged w.store ≡ none)

  -- The storage is ready, and a batch of writes is open.
  abbrev pub IsOpen : World e → Type 0
  IsOpen w = st.Ready w.store × ((ws : List Write) × (st.staged w.store ≡ some ws))

  abbrev pub Idles : {A : Type 0} → M (World e) A → Type 0
  Idles m = Keeps IsIdle m

  abbrev pub Opens : M (World e) (Unit {0}) → Type 0
  Opens m = Holds IsIdle IsOpen m (λ _. IsOpen)

  pub put-Idles : (k v : Bytes) → Idles (on_store e (e.storage.put k v))
  unfolding on_store
  put-Idles k v w (r, b) =
      let wrote = st.put_law k v w.store r in rw wrote.returns (wrote.ready, wrote.batch ∙ b)

  pub get-Idles : (k : Bytes) → Idles (on_store e (e.storage.get k))
  unfolding on_store
  get-Idles k w (r, b) = rw (st.get_law k w.store r) (r, b)

  pub scan_prefix-Idles : (p : Bytes) → Idles (on_store e (e.storage.scan_prefix p))
  unfolding on_store
  scan_prefix-Idles p w (r, b) =
      let (l, run, scan) = st.scan_prefix_law p w.store r in rw run (r, b)

  pub begin_batch-Holds :
      Holds IsIdle IsIdle (on_store e e.storage.begin_batch) (λ b w. (b ≡ true) × IsOpen w)
  unfolding on_store
  begin_batch-Holds w (r, b) =
      let (s, run, r', b', same) = st.begin_law w.store r b in rw run (refl, (r', ([], b')))

  pub put_to_batch-Opens : (k v : Bytes) → Opens (on_store e (e.storage.put_to_batch k v))
  unfolding on_store
  put_to_batch-Opens k v w (r, (ws, b)) =
      let put = st.put_to_batch_law k v w.store ws r b in rw put.returns (put.ready, (_, put.batch))

  pub delete_from_batch-Opens : (k : Bytes) → Opens (on_store e (e.storage.delete_from_batch k))
  unfolding on_store
  delete_from_batch-Opens k w (r, (ws, b)) =
      let put = st.delete_from_batch_law k w.store ws r b in
      rw put.returns (put.ready, (_, put.batch))

  pub commit_batch-Holds : Holds IsIdle IsOpen (on_store e e.storage.commit_batch) (λ _. IsIdle)
  unfolding on_store
  commit_batch-Holds w (r, (ws, b)) =
      let wrote = st.commit_law w.store ws r b in rw wrote.returns (wrote.ready, wrote.batch)

  -- A block of writes in one batch: nothing is done if it could not be begun.
  pub batch-Idles :
      (m : M (World e) Bool)
      → Holds IsIdle IsOpen m (λ _. IsIdle)
      → Idles (on_store e e.storage.begin_batch >>= λ begun. if not begun then pure false else m)
  batch-Idles m h =
      seq IsIdle IsIdle (λ b w. (b ≡ true) × IsOpen w) (λ _. IsIdle) _ _ begin_batch-Holds block
    where
      block :
          (begun : Bool)
          → Holds IsIdle
              (λ w. (begun ≡ true) × IsOpen w)
              (if not begun then pure false else m)
              (λ _. IsIdle)
      block true w (p, o) = h w o
      block false w (p, o) = absurd (cc p)

  pub generate-Idles : Idles (generate e)
  unfolding generate on_host
  generate-Idles w x = x

  pub now-Idles : Idles (now e)
  unfolding now on_host
  now-Idles w x = x

  module _ (bm : BatchManager) (g sid : Bytes) where
    pub create_batch-Idles : (a b : ℤ) → Idles (create_batch e bm g sid a b)
    unfolding create_batch
    create_batch-Idles a b =
        if-Keeps IsIdle (not bm.storage_set) _ _ (λ w x. x)
          (seq-Keeps IsIdle (generate e) _ generate-Idles (λ id.
            seq-Keeps IsIdle (now e) _ now-Idles
              (λ t. seq-Keeps IsIdle _ _ (put-Idles _ _) (λ done w x. x))))

    read_metadata-Idles : (found : Option Bytes) → Idles (read_metadata e bm found)
    unfolding read_metadata
    read_metadata-Idles none = λ w x. x
    read_metadata-Idles (some json) =
        option-Keeps IsIdle (batch_metadata_from_json e.json json) _ _ (λ w x. x) (λ m w x. x)

    pub get_batch_metadata-Idles : (id : Bytes) → Idles (get_batch_metadata e bm g sid id)
    unfolding get_batch_metadata
    get_batch_metadata-Idles id =
        if-Keeps IsIdle (not bm.storage_set) _ _ (λ w x. x)
          (seq-Keeps IsIdle _ _ (get-Idles _) read_metadata-Idles)

    mark_read-Idles : (key : Bytes) (m : BatchMetadata) → Idles (mark_read e bm key m)
    unfolding mark_read
    mark_read-Idles key m =
        if-Keeps IsIdle (is_loaded m.status) _ _ (λ w x. x)
          (seq-Keeps IsIdle (now e) _ now-Idles (λ t. put-Idles _ _))

    mark_found-Idles :
        (key id : Bytes) (found : Option Bytes) → Idles (mark_found e bm key id found)
    unfolding mark_found
    mark_found-Idles key id none = λ w x. x
    mark_found-Idles key id (some json) =
        option-Keeps IsIdle (batch_metadata_from_json e.json json) _ _ (λ w x. x)
          (λ m. mark_read-Idles key m)

    pub mark_batch_as_loaded-Idles : (id : Bytes) → Idles (mark_batch_as_loaded e bm g sid id)
    unfolding mark_batch_as_loaded
    mark_batch_as_loaded-Idles id =
        if-Keeps IsIdle (not bm.storage_set) _ _ (λ w x. x)
          (seq-Keeps IsIdle _ _ (get-Idles _) (mark_found-Idles _ id))

    delete_all-Opens : (ks : List Bytes) → Opens (delete_all e bm ks)
    unfolding delete_all
    delete_all-Opens [] = λ w x. x
    delete_all-Opens (k ∷ ks) =
        seq IsIdle IsOpen (λ _. IsOpen) (λ _. IsOpen) _ _ (delete_from_batch-Opens k)
          (λ _. delete_all-Opens ks)

    acknowledge_read-Idles :
        (id : Bytes) (m : BatchMetadata) → Idles (acknowledge_read e bm g sid id m)
    unfolding acknowledge_read
    acknowledge_read-Idles id m = batch-Idles _ (
        seq IsIdle IsOpen (λ _. IsOpen) (λ _. IsIdle) _ _ (delete_from_batch-Opens _)
          (λ _.
            seq IsIdle IsOpen (λ _. IsOpen) (λ _. IsIdle) _ _ (delete_all-Opens _)
              (λ _. commit_batch-Holds)))

    acknowledge_found-Idles :
        (id : Bytes) (found : Option Bytes) → Idles (acknowledge_found e bm g sid id found)
    unfolding acknowledge_found
    acknowledge_found-Idles id none = λ w x. x
    acknowledge_found-Idles id (some json) =
        option-Keeps IsIdle (batch_metadata_from_json e.json json) _ _ (λ w x. x)
          (λ m. acknowledge_read-Idles id m)

    pub acknowledge_batch-Idles : (id : Bytes) → Idles (acknowledge_batch e bm g sid id)
    unfolding acknowledge_batch
    acknowledge_batch-Idles id =
        if-Keeps IsIdle (not bm.storage_set) _ _ (λ w x. x)
          (seq-Keeps IsIdle _ _ (get-Idles _) (acknowledge_found-Idles id))

    loadable_of-Idles :
        (n : ℕ) (found : Option (List (Bytes × ℤ))) → Idles (loadable_of e bm n found)
    unfolding loadable_of
    loadable_of-Idles n none = λ w x. x
    loadable_of-Idles n (some batches) = λ w x. x

    pub get_loadable_batches-Idles : (n : ℕ) → Idles (get_loadable_batches e bm g sid n)
    unfolding get_loadable_batches
    get_loadable_batches-Idles n =
        if-Keeps IsIdle (not bm.storage_set) _ _ (λ w x. x)
          (seq-Keeps IsIdle _ _ (scan_prefix-Idles _) (λ found. loadable_of-Idles n _))
