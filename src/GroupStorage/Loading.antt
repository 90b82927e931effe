-- ===== src/GroupStorage/Loading.antt =====
-- `Load`, `LoadBatch` and `AcknowledgeBatch` of src/group_storage.cpp.
use durastash.Prelude.{
  ℕ, Bool, false, not, Option, none, some, List, [], ◌∷◌, ◌++◌, Bytes, ℤ, if◌then◌else◌, ◌==◌,
}
use durastash.Outcome.{M, pure, gets, ◌>>=◌}
use durastash.Types.{BatchMetadata, batch_metadata_from_json}
use durastash.Sorting.{sort}
use durastash.Env.{Env, on_store}
use durastash.BatchManager
use durastash.BatchManager.{
  BatchManager, generate_data_keys, batch_prefix, make_batch_metadata_key, is_loaded,
}
use durastash.Maps.{find}
use durastash.GroupStorage.State.{GroupState, with_lock, in_world}

pub record BatchLoadResult : Type 0 where
  pub batch_id : Bytes
  pub values : List Bytes
  pub sequence_start : ℤ
  pub sequence_end : ℤ

module _ (e : Env) where
  -- The values that are found under the keys, in the order of the keys.
  unfoldable pub read_values : List Bytes → M (GroupState e) (List Bytes)
  read_values [] = pure []
  read_values (k ∷ ks) = do
    found ← in_world (on_store e (e.storage.get k))
    rest ← read_values ks
    pure (elim found [ none ↦ rest | some value ↦ value ∷ rest ])

  -- The metadata of a scan, beside their first numbers; a value that is not valid JSON is passed over.
  unfoldable pub readable_batches : List (Bytes × Bytes) → List (ℤ × BatchMetadata)
  readable_batches [] = []
  readable_batches ((key, value) ∷ rest) = elim (batch_metadata_from_json e.json value) [
    | none ↦ readable_batches rest
    | some m ↦ (m.sequence_start, m) ∷ readable_batches rest
  ]

  unfoldable pub load_batches :
      Bytes → Bytes → List (ℤ × BatchMetadata) → M (GroupState e) (List Bytes)
  load_batches group_key session_id [] = pure []
  load_batches group_key session_id ((start, m) ∷ rest) = do
    values ←
        read_values
          (generate_data_keys group_key session_id m.batch_id m.sequence_start m.sequence_end)
    more ← load_batches group_key session_id rest
    pure (values ++ more)

  unfoldable pub load_session : Bytes → Option Bytes → M (GroupState e) (List Bytes)
  load_session group_key none = pure []
  load_session group_key (some session_id) = do
    found ← in_world (on_store e (e.storage.scan_prefix (batch_prefix group_key session_id)))
    load_batches group_key session_id (sort (λ b. b.0) (readable_batches found.1))

  unfoldable pub load : Bytes → M (GroupState e) (List Bytes)
  load group_key =
      with_lock
        (do session ← gets (λ s. find group_key s.group_sessions); load_session group_key session)

  -- `LoadBatchData` for metadata that were found.
  unfoldable pub load_batch_found :
      Bytes → Bytes → Bytes → Option BatchMetadata → M (GroupState e) (Option BatchLoadResult)
  load_batch_found group_key session_id batch_id none = pure none
  load_batch_found group_key session_id batch_id (some m) = do
    values ←
        read_values
          (generate_data_keys group_key session_id batch_id m.sequence_start m.sequence_end)
    pure (
        some (record {
          batch_id = batch_id;
          values = values;
          sequence_start = m.sequence_start;
          sequence_end = m.sequence_end;
        }))

  unfoldable pub load_batch_data : Bytes → Bytes → Bytes → M (GroupState e) (Option BatchLoadResult)
  load_batch_data group_key session_id batch_id = do
    bm ← gets (λ s. s.batches)
    m ← in_world (BatchManager.get_batch_metadata e bm group_key session_id batch_id)
    load_batch_found group_key session_id batch_id m

  -- One round of the loop of `LoadBatch`; `none` where the batch is skipped.
  unfoldable pub load_one : Bytes → Bytes → Bytes → M (GroupState e) (Option BatchLoadResult)
  load_one group_key session_id batch_id = do
    bm ← gets (λ s. s.batches)
    marked ← in_world (BatchManager.mark_batch_as_loaded e bm group_key session_id batch_id)
    if not marked then pure none else load_batch_data group_key session_id batch_id

  unfoldable pub load_each : Bytes → Bytes → List Bytes → M (GroupState e) (List BatchLoadResult)
  load_each group_key session_id [] = pure []
  load_each group_key session_id (batch_id ∷ ids) = do
    result ← load_one group_key session_id batch_id
    rest ← load_each group_key session_id ids
    pure (elim result [ none ↦ rest | some r ↦ r ∷ rest ])

  unfoldable pub load_batch_session :
      Bytes → ℕ → Option Bytes → M (GroupState e) (List BatchLoadResult)
  load_batch_session group_key batch_size none = pure []
  load_batch_session group_key batch_size (some session_id) = do
    bm ← gets (λ s. s.batches)
    found ← in_world (BatchManager.get_loadable_batches e bm group_key session_id batch_size)
    if found.0 == 0 then pure [] else load_each group_key session_id found.1

  unfoldable pub load_batch : Bytes → ℕ → M (GroupState e) (List BatchLoadResult)
  load_batch group_key batch_size = with_lock (do
    session ← gets (λ s. find group_key s.group_sessions)
    load_batch_session group_key batch_size session)

  unfoldable pub acknowledge_session : Bytes → Bytes → Option Bytes → M (GroupState e) Bool
  acknowledge_session group_key batch_id none = pure false
  acknowledge_session group_key batch_id (some session_id) = do
    bm ← gets (λ s. s.batches)
    in_world (BatchManager.acknowledge_batch e bm group_key session_id batch_id)

  unfoldable pub acknowledge_batch : Bytes → Bytes → M (GroupState e) Bool
  acknowledge_batch group_key batch_id = with_lock (do
    session ← gets (λ s. find group_key s.group_sessions)
    acknowledge_session group_key batch_id session)
