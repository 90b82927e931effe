-- ===== src/BatchManager/Loadable.antt =====
-- Which batches `GetLoadableBatches` returns, and in which order.
use mathlib.Core.List.{Perm}
use durastash.Prelude.{◌↔◌, ℕ, ◌≡◌, arith, true, none, some, List, ◌++◌, map, min, Bytes, ℤ, length}
use durastash.Prelude.Text.{starts_with}
use durastash.Errors.{json_error}
use durastash.Contents.{Elem}
use durastash.Outcome.{ok, throw}
use durastash.Storage.Contract.{StorageLaws, IsScan}
use durastash.Types.{pending, BatchMetadata, batch_metadata_from_json}
use durastash.Sorting.Ordered.{IsSorted}
use durastash.Env.{Env, World, on_store}
use durastash.BatchManager.{
  BatchManager, batch_prefix, pending_batches, first_batches, loadable_of, get_loadable_batches,
}
use durastash.BatchManager.Pending.{Entries, pending_batches_broken}

module _ (e : Env) (st : StorageLaws e.storage) (bm : BatchManager) (set : bm.storage_set ≡ true)
    (g s : Bytes) where
  -- Every value under the prefix of the session is the JSON of metadata.
  abbrev pub AllReadable : World e → Type 0
  AllReadable w =
      (k v : Bytes)
      → starts_with (batch_prefix g s) k ≡ true
      → st.contents w.store k ≡ some v
      → (m : BatchMetadata) × (batch_metadata_from_json e.json v ≡ some m)

  -- The store holds the metadata of a pending batch of the session, with this identifier and this
  -- first number.
  abbrev pub IsStoredPending : World e → Bytes → ℤ → Type 0
  IsStoredPending w id start =
      (k : Bytes) × (v : Bytes) × (m : BatchMetadata) × (starts_with (batch_prefix g s) k ≡ true)
      × (st.contents w.store k ≡ some v)
      × (batch_metadata_from_json e.json v ≡ some m)
      × (m.status ≡ pending)
      × (m.batch_id ≡ id)
      × (m.sequence_start ≡ start)

  pub on_IsScan :
      (w : World e)
      → st.Ready w.store
      → (l : Entries) × (on_store e (e.storage.scan_prefix (batch_prefix g s)) w
          ≡ (ok (length l, l), w))
        × IsScan (st.contents w.store) (batch_prefix g s) l
  unfolding on_store
  on_IsScan w r =
      let (l, run, scan) = st.scan_prefix_law (batch_prefix g s) w.store r in (l, rw run, scan)

  -- What `GetLoadableBatches` returns: of all pending batches of the session, in the order of their
  -- first numbers, as many of the first as `batch_size` admits. It changes nothing.
  pub record Loadable (batch_size : ℕ) (w : World e) : Type 0 where
    pub chosen : List (Bytes × ℤ)
    pub left : List (Bytes × ℤ)
    pub returns :
        get_loadable_batches e bm g s batch_size w ≡ (ok (length chosen, map (λ b. b.0) chosen), w)
    pub in_order : IsSorted (λ (b : Bytes × ℤ). b.1) (chosen ++ left)
    pub all : List (Bytes × ℤ)
    pub permuted : Perm (chosen ++ left) all
    pub all_iff : (id : Bytes) (start : ℤ) → Elem (id, start) all ↔ IsStoredPending w id start
    pub size : length chosen ≡ min batch_size (length all)

  pub loadable_returns :
      (batch_size : ℕ) (w : World e) (l : Entries) (bs : List (Bytes × ℤ))
      → on_store e (e.storage.scan_prefix (batch_prefix g s)) w ≡ (ok (length l, l), w)
      → pending_batches e.json l ≡ some bs
      → get_loadable_batches e bm g s batch_size w
        ≡ (ok (length (first_batches batch_size bs), first_batches batch_size bs), w)
  unfolding get_loadable_batches loadable_of
  loadable_returns batch_size w l bs run filtered = ground (arith, run, filtered)

  -- Over a ready storage that keeps its contract, one value under the prefix of the metadata of
  -- the session that cannot be read makes `GetLoadableBatches` throw, and nothing changes.
  pub get_loadable_batches_broken :
      (batch_size : ℕ) (w : World e) (k v : Bytes)
      → st.Ready w.store
      → starts_with (batch_prefix g s) k ≡ true
      → st.contents w.store k ≡ some v
      → batch_metadata_from_json e.json v ≡ none
      → get_loadable_batches e bm g s batch_size w ≡ (throw json_error, w)
  unfolding get_loadable_batches loadable_of
  get_loadable_batches_broken batch_size w k v r t c broken =
      let (l, run, scan) = on_IsScan w r in
      let failed : pending_batches e.json l ≡ none =
        pending_batches_broken e.json l k v ((scan.elem_iff k v).1 (t, c)) broken in
      ground (arith, run, failed)
