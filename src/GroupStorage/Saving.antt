-- ===== src/GroupStorage/Saving.antt =====
-- `Save` and what it calls, of src/group_storage.cpp.
use durastash.Prelude.{
  ℕ, ◌+◌, ◌-◌, ◌*◌, ◌/◌, ◌%◌, Bool, false, Option, none, some, List, [], ◌∷◌, ◌++◌, Bytes, codes, ℤ,
  pos, if◌then◌else◌, ◌==◌,
}
use durastash.Prelude.Text.{is_empty, decimal}
use durastash.Prelude.Int.{u64_mod, to_u64, to_i64, add_i64}
use durastash.Outcome.{ok, trap, M, pure, gets, ◌>>=◌}
use durastash.Env.{Env, on_store}
use durastash.BatchManager
use durastash.BatchManager.{
  BatchManager, generate_data_keys, batch_prefix, make_batch_metadata_key, is_loaded,
}
use durastash.Maps.{find, assign}
use durastash.GroupStorage.State.{GroupState, with_lock, in_world, session_or_empty}
use durastash.GroupStorage.Lifecycle.{initialize_session}

-- The range of the batch that a number falls into. `sequence_id` is converted to `size_t`, and the
-- results back to `int64_t`.
unfoldable pub batch_start_of : ℤ → ℕ → ℤ
batch_start_of sequence_id size = to_i64 (to_u64 sequence_id / size * size % u64_mod)

unfoldable pub batch_end_of : ℤ → ℕ → ℤ
batch_end_of batch_start size = to_i64 ((to_u64 batch_start + size + (u64_mod - 1)) % u64_mod)

-- `group_key + ":" + std::to_string(batch_start)`
unfoldable pub batch_key_of : Bytes → ℤ → Bytes
batch_key_of group_key batch_start = group_key ++ (codes ":" ++ decimal batch_start)

module _ (e : Env) where
  -- The next number, and the counters with it.
  unfoldable pub next_sequence : Bytes → Option ℤ → M (GroupState e) ℤ
  next_sequence group_key none s = (
    ok (pos 0),
    record s { group_sequence_counters = assign group_key (pos 0) s.group_sequence_counters },
  )
  next_sequence group_key (some last) s =
      let next = add_i64 last (pos 1) in
      (
        ok next,
        record s { group_sequence_counters = assign group_key next s.group_sequence_counters },
      )

  unfoldable pub get_next_sequence_id : Bytes → M (GroupState e) ℤ
  get_next_sequence_id group_key s =
      next_sequence group_key (find group_key s.group_sequence_counters) s

  unfoldable pub session_or_create : Bytes → Option Bytes → M (GroupState e) Bytes
  session_or_create group_key (some session_id) = pure session_id
  session_or_create group_key none = do
    done ← initialize_session e group_key
    id ← gets (λ s. session_or_empty (find group_key s.group_sessions))
    pure (if done then id else [])

  -- Called with the mutex held.
  unfoldable pub get_or_create_session : Bytes → M (GroupState e) Bytes
  get_or_create_session group_key s =
      session_or_create group_key (find group_key s.group_sessions) s

  -- The identifier of the batch with this key: the current one, or a new one; `none` if it could not
  -- be created.
  unfoldable pub batch_or_create :
      Bytes → Bytes → Bytes → ℤ → ℤ → Option Bytes → M (GroupState e) (Option Bytes)
  batch_or_create group_key session_id batch_key batch_start batch_end (some batch_id) =
      pure (some batch_id)
  batch_or_create group_key session_id batch_key batch_start batch_end none = do
    bm ← gets (λ s. s.batches)
    batch_id ← in_world (BatchManager.create_batch e bm group_key session_id batch_start batch_end)
    if is_empty batch_id then pure none else λ s. (
      ok (some batch_id),
      record s { group_current_batch_ids = assign batch_key batch_id s.group_current_batch_ids },
    )

  -- The end of `Save`: the value goes under the first of the keys.
  unfoldable pub put_first : List Bytes → Bytes → M (GroupState e) Bool
  put_first [] value = pure false
  put_first (k ∷ ks) value = in_world (on_store e (e.storage.put k value))

  -- The value goes into the batch, if there is one.
  unfoldable pub put_value : Bytes → Bytes → Bytes → ℤ → Option Bytes → M (GroupState e) Bool
  put_value group_key value session_id sequence_id none = pure false
  put_value group_key value session_id sequence_id (some batch_id) =
      put_first (generate_data_keys group_key session_id batch_id sequence_id sequence_id) value

  -- `Save` for a session that is known and the number `sequence_id`.
  unfoldable pub save_numbered : Bytes → Bytes → Bytes → ℤ → ℕ → M (GroupState e) Bool
  save_numbered group_key value session_id sequence_id size =
      if size == 0 then (λ s. (trap, s)) else do
        let batch_start = batch_start_of sequence_id size
        let batch_end = batch_end_of batch_start size
        let batch_key = batch_key_of group_key batch_start
        current ← gets (λ s. find batch_key s.group_current_batch_ids)
        batch ← batch_or_create group_key session_id batch_key batch_start batch_end current
        put_value group_key value session_id sequence_id batch

  unfoldable pub save : Bytes → Bytes → M (GroupState e) Bool
  save group_key value = with_lock (do
    session_id ← get_or_create_session group_key
    if is_empty session_id then pure false else do
      sequence_id ← get_next_sequence_id group_key
      size ← gets (λ s. s.default_batch_size)
      save_numbered group_key value session_id sequence_id size)
