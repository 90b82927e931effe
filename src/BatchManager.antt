-- ===== src/BatchManager.antt =====
-- include/durastash/batch_manager.h and src/batch_manager.cpp: the life of a batch. No method locks
-- the manager's mutex while it holds it, so the mutex does not show in the run of one call.
pub mod Metadata
pub mod DataKeys
pub mod Pending
pub mod Loadable
pub mod Lookup
pub mod Acknowledge
pub mod Deleting
pub mod Keys
use mathlib.Core.Option
use durastash.Prelude.{
  ℕ, zero, suc, ◌+◌, ◌-◌, min, Bool, true, false, not, ◌&&◌, Option, none, some, List, [], ◌∷◌,
  ◌++◌, map, Bytes, codes, ℤ, pos, if◌then◌else◌, length, take,
}
use durastash.Prelude.Text.{is_empty, pad_left, decimal}
use durastash.Prelude.Int.{leb_ℤ, pos_part, neg_part, to_i64, add_i64}
use durastash.Errors.{batch_not_found, corrupted_batch, json_error}
use durastash.Outcome.{Outcome, M, pure, raise, ◌>>=◌, ◌>>◌}
use durastash.Storage.{IStorage}
use durastash.Json.{Jsonable}
use durastash.Types.{
  BatchStatus, pending, loaded, acknowledged, BatchMetadata, batch_metadata_to_json,
  batch_metadata_from_json,
}
use durastash.Sorting.{sort}
use durastash.Env.{Env, World, on_store, generate, now}

-- The pointer `storage_`: whether it is not null.
pub record BatchManager : Type 0 where
  pub storage_set : Bool

unfoldable pub make_batch_metadata_key : Bytes → Bytes → Bytes → Bytes
make_batch_metadata_key group_key session_id batch_id =
    group_key ++ (codes ":" ++ (session_id ++ (codes ":batch:" ++ batch_id)))

unfoldable pub make_data_key : Bytes → Bytes → Bytes → ℤ → Bytes
make_data_key group_key session_id batch_id sequence_id =
    group_key
    ++ (codes ":"
        ++ (session_id
            ++ (codes ":" ++ (batch_id ++ (codes ":" ++ pad_left 20 (decimal sequence_id))))))

-- How many numbers there are from `a` to `b`.
unfoldable pub rounds : ℤ → ℤ → ℕ
rounds a b = pos_part b + neg_part a + 1 - (pos_part a + neg_part b)

-- The loop `for (seq = sequence_start; seq <= sequence_end; ++seq)`, with as many rounds to go at most
-- as the first argument says.
unfoldable pub data_keys_loop : ℕ → Bytes → Bytes → Bytes → ℤ → ℤ → List Bytes
data_keys_loop zero group_key session_id batch_id seq sequence_end = []
data_keys_loop (suc n) group_key session_id batch_id seq sequence_end =
    let rest = data_keys_loop n group_key session_id batch_id (add_i64 seq (pos 1)) sequence_end in
    if leb_ℤ seq sequence_end then make_data_key group_key session_id batch_id seq ∷ rest else []

-- A list for every range: the C++ loop returns one for a range that ends below the largest `int64_t`,
-- and overflows on a range that ends there.
unfoldable pub generate_data_keys : Bytes → Bytes → Bytes → ℤ → ℤ → List Bytes
generate_data_keys group_key session_id batch_id sequence_start sequence_end =
    data_keys_loop (rounds sequence_start sequence_end) group_key session_id batch_id sequence_start
      sequence_end

-- `group_key + ":" + session_id + ":batch:"`
unfoldable pub batch_prefix : Bytes → Bytes → Bytes
batch_prefix group_key session_id = group_key ++ (codes ":" ++ (session_id ++ codes ":batch:"))

unfoldable pub is_pending : BatchStatus → Bool
is_pending pending = true
is_pending loaded = false
is_pending acknowledged = false

unfoldable pub is_loaded : BatchStatus → Bool
is_loaded pending = false
is_loaded loaded = true
is_loaded acknowledged = false

-- One round of the filter: the identifier and the first number of a pending batch.
unfoldable pub add_pending : BatchMetadata → List (Bytes × ℤ) → List (Bytes × ℤ)
add_pending m found = if is_pending m.status then (m.batch_id, m.sequence_start) ∷ found else found

-- The sort and the cut of `GetLoadableBatches`.
unfoldable pub first_batches : ℕ → List (Bytes × ℤ) → List Bytes
first_batches batch_size batches =
    map (λ b. b.0) (take (min batch_size (length batches)) (sort (λ b. b.1) batches))

module _ (js : Jsonable) where
  -- The filter of `GetLoadableBatches`; `none` where a value is not valid JSON, which throws.
  unfoldable pub pending_batches : List (Bytes × Bytes) → Option (List (Bytes × ℤ))
  pending_batches [] = some []
  pending_batches ((key, value) ∷ rest) = elim (batch_metadata_from_json js value) [
    | none ↦ none
    | some m ↦ Option.map (add_pending m) (pending_batches rest)
  ]

  -- The loop of `FindBatchIdBySequenceId`; a value that is not valid JSON is passed over.
  unfoldable pub find_batch_loop : ℤ → List (Bytes × Bytes) → Bytes
  find_batch_loop sequence_id [] = []
  find_batch_loop sequence_id ((key, value) ∷ rest) = elim (batch_metadata_from_json js value) [
    | none ↦ find_batch_loop sequence_id rest
    | some m ↦
        if leb_ℤ m.sequence_start sequence_id && leb_ℤ sequence_id m.sequence_end
        then m.batch_id
        else find_batch_loop sequence_id rest
  ]

module _ (e : Env) (bm : BatchManager) where
  unfoldable pub create_batch : Bytes → Bytes → ℤ → ℤ → M (World e) Bytes
  create_batch group_key session_id sequence_start sequence_end =
      if not bm.storage_set then pure [] else do
        batch_id ← generate e
        created ← now e
        let metadata : BatchMetadata = record {
          batch_id = batch_id;
          sequence_start = sequence_start;
          sequence_end = sequence_end;
          status = pending;
          created_at = to_i64 created;
          loaded_at = pos 0;
        }
        done ← on_store e (
            e.storage.put (make_batch_metadata_key group_key session_id batch_id)
              (batch_metadata_to_json e.json metadata))
        pure (if done then batch_id else [])

  -- What `GetBatchMetadata` does with what it found: broken JSON throws.
  unfoldable pub read_metadata : Option Bytes → M (World e) (Option BatchMetadata)
  read_metadata none = pure none
  read_metadata (some json) = elim (batch_metadata_from_json e.json json) [
    | none ↦ raise json_error
    | some m ↦ pure (some m)
  ]

  unfoldable pub get_batch_metadata : Bytes → Bytes → Bytes → M (World e) (Option BatchMetadata)
  get_batch_metadata group_key session_id batch_id = if not bm.storage_set then pure none else do
    found ← on_store e (e.storage.get (make_batch_metadata_key group_key session_id batch_id))
    read_metadata found

  -- The rest of `MarkBatchAsLoaded`, for the metadata that were read.
  unfoldable pub mark_read : Bytes → BatchMetadata → M (World e) Bool
  mark_read key m = if is_loaded m.status then pure false else do
    t ← now e
    on_store e (
        e.storage.put key
          (batch_metadata_to_json e.json (record m { status = loaded; loaded_at = to_i64 t })))

  unfoldable pub mark_found : Bytes → Bytes → Option Bytes → M (World e) Bool
  mark_found key batch_id none = raise (batch_not_found batch_id)
  mark_found key batch_id (some json) = elim (batch_metadata_from_json e.json json) [
    | none ↦ raise (corrupted_batch batch_id)
    | some m ↦ mark_read key m
  ]

  unfoldable pub mark_batch_as_loaded : Bytes → Bytes → Bytes → M (World e) Bool
  mark_batch_as_loaded group_key session_id batch_id = if not bm.storage_set then pure false else do
    let key = make_batch_metadata_key group_key session_id batch_id
    found ← on_store e (e.storage.get key)
    mark_found key batch_id found

  -- The loop over the data keys.
  unfoldable pub delete_all : List Bytes → M (World e) (Unit {0})
  delete_all [] = pure tt
  delete_all (k ∷ ks) = do on_store e (e.storage.delete_from_batch k); delete_all ks

  unfoldable pub acknowledge_read : Bytes → Bytes → Bytes → BatchMetadata → M (World e) Bool
  acknowledge_read group_key session_id batch_id m = do
    begun ← on_store e e.storage.begin_batch
    if not begun then pure false else do
      on_store e
          (e.storage.delete_from_batch (make_batch_metadata_key group_key session_id batch_id))
      delete_all (generate_data_keys group_key session_id batch_id m.sequence_start m.sequence_end)
      on_store e e.storage.commit_batch

  unfoldable pub acknowledge_found : Bytes → Bytes → Bytes → Option Bytes → M (World e) Bool
  acknowledge_found group_key session_id batch_id none = pure false
  acknowledge_found group_key session_id batch_id (some json) =
      elim (batch_metadata_from_json e.json json) [
        | none ↦ pure false
        | some m ↦ acknowledge_read group_key session_id batch_id m
      ]

  unfoldable pub acknowledge_batch : Bytes → Bytes → Bytes → M (World e) Bool
  acknowledge_batch group_key session_id batch_id = if not bm.storage_set then pure false else do
    found ← on_store e (e.storage.get (make_batch_metadata_key group_key session_id batch_id))
    acknowledge_found group_key session_id batch_id found

  unfoldable pub loadable_of : ℕ → Option (List (Bytes × ℤ)) → M (World e) (ℕ × List Bytes)
  loadable_of batch_size none = raise json_error
  loadable_of batch_size (some batches) =
      let ids = first_batches batch_size batches in pure (length ids, ids)

  -- The count that the call returns, and the output vector.
  unfoldable pub get_loadable_batches : Bytes → Bytes → ℕ → M (World e) (ℕ × List Bytes)
  get_loadable_batches group_key session_id batch_size =
      if not bm.storage_set then pure (0, []) else do
        found ← on_store e (e.storage.scan_prefix (batch_prefix group_key session_id))
        loadable_of batch_size (pending_batches e.json found.1)

  unfoldable pub find_batch_id_by_sequence_id : Bytes → Bytes → ℤ → M (World e) Bytes
  find_batch_id_by_sequence_id group_key session_id sequence_id =
      if not bm.storage_set then pure [] else do
        found ← on_store e (e.storage.scan_prefix (batch_prefix group_key session_id))
        pure (find_batch_loop e.json sequence_id found.1)

  unfoldable pub make_data_key_by_sequence_id : Bytes → Bytes → ℤ → M (World e) Bytes
  make_data_key_by_sequence_id group_key session_id sequence_id = do
    batch_id ← find_batch_id_by_sequence_id group_key session_id sequence_id
    pure (if is_empty batch_id then [] else make_data_key group_key session_id batch_id sequence_id)
