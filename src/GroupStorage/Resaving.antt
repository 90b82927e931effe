-- ===== src/GroupStorage/Resaving.antt =====
-- `ResaveBatch` of src/group_storage.cpp.
use durastash.Prelude.{
  Bool, false, not, Option, none, some, List, [], ◌∷◌, Bytes, ℤ, if◌then◌else◌, length,
}
use durastash.Prelude.Text.{is_empty}
use durastash.Outcome.{M, pure, gets, ◌>>=◌, ◌>>◌}
use durastash.Types.{BatchMetadata}
use durastash.Env.{Env, on_store}
use durastash.BatchManager
use durastash.BatchManager.{
  BatchManager, generate_data_keys, batch_prefix, make_batch_metadata_key, is_loaded,
}
use durastash.Maps.{find}
use durastash.GroupStorage.State.{GroupState, with_lock, in_world}
use durastash.GroupStorage.Saving.{get_next_sequence_id, batch_end_of}

module _ (e : Env) where
  -- The loops of `ResaveBatch` over the keys.
  unfoldable pub put_each : List Bytes → List Bytes → M (GroupState e) (Unit {0})
  put_each [] values = pure tt
  put_each (k ∷ ks) [] = pure tt
  put_each (k ∷ ks) (v ∷ vs) = do in_world (on_store e (e.storage.put_to_batch k v)); put_each ks vs

  unfoldable pub delete_each : List Bytes → M (GroupState e) (Unit {0})
  delete_each [] = pure tt
  delete_each (k ∷ ks) = do in_world (on_store e (e.storage.delete_from_batch k)); delete_each ks

  -- The one write of `ResaveBatch`.
  unfoldable pub resave_write :
      Bytes → Bytes → Bytes → BatchMetadata → Bytes → ℤ → ℤ → List Bytes → M (GroupState e) Bool
  resave_write group_key session_id batch_id original new_batch_id new_start new_end remaining = do
    begun ← in_world (on_store e e.storage.begin_batch)
    if not begun then pure false else do
      put_each (generate_data_keys group_key session_id new_batch_id new_start new_end) remaining
      in_world (
          on_store e
            (e.storage.delete_from_batch (make_batch_metadata_key group_key session_id batch_id)))
      delete_each (
          generate_data_keys group_key session_id batch_id original.sequence_start
            original.sequence_end)
      in_world (on_store e e.storage.commit_batch)

  -- `ResaveBatch` for a loaded batch with values left. The end of the range is computed in `size_t`.
  unfoldable pub resave_remaining :
      Bytes → Bytes → Bytes → BatchMetadata → List Bytes → M (GroupState e) Bool
  resave_remaining group_key session_id batch_id original remaining = do
    bm ← gets (λ s. s.batches)
    new_start ← get_next_sequence_id e group_key
    let new_end = batch_end_of new_start (length remaining)
    new_batch_id ← in_world (BatchManager.create_batch e bm group_key session_id new_start new_end)
    if is_empty new_batch_id
        then pure false
        else resave_write group_key session_id batch_id original new_batch_id new_start new_end
            remaining

  unfoldable pub resave_found :
      Bytes → Bytes → Bytes → List Bytes → Option BatchMetadata → M (GroupState e) Bool
  resave_found group_key session_id batch_id remaining none = pure false
  resave_found group_key session_id batch_id [] (some original) =
      if not (is_loaded original.status) then pure false else do
        bm ← gets (λ s. s.batches)
        in_world (BatchManager.acknowledge_batch e bm group_key session_id batch_id)
  resave_found group_key session_id batch_id (v ∷ vs) (some original) =
      if not (is_loaded original.status)
      then pure false
      else resave_remaining group_key session_id batch_id original (v ∷ vs)

  unfoldable pub resave_session : Bytes → Bytes → List Bytes → Option Bytes → M (GroupState e) Bool
  resave_session group_key batch_id remaining none = pure false
  resave_session group_key batch_id remaining (some session_id) = do
    bm ← gets (λ s. s.batches)
    original ← in_world (BatchManager.get_batch_metadata e bm group_key session_id batch_id)
    resave_found group_key session_id batch_id remaining original

  unfoldable pub resave_batch : Bytes → Bytes → List Bytes → M (GroupState e) Bool
  resave_batch group_key batch_id remaining = with_lock (do
    session ← gets (λ s. find group_key s.group_sessions)
    resave_session group_key batch_id remaining session)
