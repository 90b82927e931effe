-- ===== src/Types.antt =====
-- include/durastash/types.h: the records that are stored as JSON.
pub mod RoundTrip
use durastash.Prelude.{Bool, Option, some, none, Bytes, codes, ℤ, pos, if◌then◌else◌}
use durastash.Prelude.Text.{bytes_eq}
use durastash.Prelude.Int.{ltb_ℤ}
use durastash.Json.{Jsonable, ◌>>=◌}

pub data BatchStatus : Type 0 where
  pending loaded acknowledged : BatchStatus

pub data SessionStatus : Type 0 where
  active terminated : SessionStatus

pub record BatchMetadata : Type 0 where
  pub batch_id : Bytes
  pub sequence_start : ℤ
  pub sequence_end : ℤ
  pub status : BatchStatus
  pub created_at : ℤ
  pub loaded_at : ℤ

pub record SessionState : Type 0 where
  pub session_id : Bytes
  pub process_id : ℤ
  pub started_at : ℤ
  pub last_heartbeat : ℤ
  pub status : SessionStatus

unfoldable pub batch_status_to_string : BatchStatus → Bytes
batch_status_to_string pending = codes "pending"
batch_status_to_string loaded = codes "loaded"
batch_status_to_string acknowledged = codes "acknowledged"

unfoldable pub string_to_batch_status : Bytes → BatchStatus
string_to_batch_status s =
    if bytes_eq s (codes "pending")
    then pending
    else if bytes_eq s (codes "loaded")
    then loaded
    else if bytes_eq s (codes "acknowledged")
    then acknowledged
    else pending

unfoldable pub session_status_to_string : SessionStatus → Bytes
session_status_to_string active = codes "active"
session_status_to_string terminated = codes "terminated"

unfoldable pub string_to_session_status : Bytes → SessionStatus
string_to_session_status s =
    if bytes_eq s (codes "active")
    then active
    else if bytes_eq s (codes "terminated")
    then terminated
    else active

module _ (js : Jsonable) where
  open js use {Object, empty, set_string, set_int64, get_string, get_int64, has_key, print, parse}

  -- `BatchMetadata::saveToJson`: the time of loading is left out if it is not set.
  unfoldable pub save_batch_metadata : BatchMetadata → Object
  save_batch_metadata m =
      let base = set_int64 (codes "created_at") m.created_at (
        set_string (codes "status") (batch_status_to_string m.status) (
          set_int64 (codes "sequence_end") m.sequence_end (
            set_int64 (codes "sequence_start") m.sequence_start
              (set_string (codes "batch_id") m.batch_id empty)))) in
      if ltb_ℤ (pos 0) m.loaded_at then set_int64 (codes "loaded_at") m.loaded_at base else base

  -- `BatchMetadata::loadFromJson`
  unfoldable pub load_batch_metadata : Object → Option BatchMetadata
  load_batch_metadata o = do
    batch_id ← get_string (codes "batch_id") o
    start ← get_int64 (codes "sequence_start") o
    last ← get_int64 (codes "sequence_end") o
    status ← get_string (codes "status") o
    created_at ← get_int64 (codes "created_at") o
    loaded_at ←
        if has_key (codes "loaded_at") o then get_int64 (codes "loaded_at") o else some (pos 0)
    some (record {
      batch_id = batch_id;
      sequence_start = start;
      sequence_end = last;
      status = string_to_batch_status status;
      created_at = created_at;
      loaded_at = loaded_at;
    })

  -- `metadata.toJson()`
  unfoldable pub batch_metadata_to_json : BatchMetadata → Bytes
  batch_metadata_to_json m = print (save_batch_metadata m)

  -- `metadata.fromJson(json)`; `none` is an exception.
  unfoldable pub batch_metadata_from_json : Bytes → Option BatchMetadata
  batch_metadata_from_json json = do o ← parse json; load_batch_metadata o

  -- `SessionState::saveToJson`
  unfoldable pub save_session_state : SessionState → Object
  save_session_state s = set_string (codes "status") (session_status_to_string s.status) (
      set_int64 (codes "last_heartbeat") s.last_heartbeat (
        set_int64 (codes "started_at") s.started_at (
          set_int64 (codes "process_id") s.process_id
            (set_string (codes "session_id") s.session_id empty))))

  -- `SessionState::loadFromJson`
  unfoldable pub load_session_state : Object → Option SessionState
  load_session_state o = do
    session_id ← get_string (codes "session_id") o
    process_id ← get_int64 (codes "process_id") o
    started_at ← get_int64 (codes "started_at") o
    last_heartbeat ← get_int64 (codes "last_heartbeat") o
    status ← get_string (codes "status") o
    some (record {
      session_id = session_id;
      process_id = process_id;
      started_at = started_at;
      last_heartbeat = last_heartbeat;
      status = string_to_session_status status;
    })

  unfoldable pub session_state_to_json : SessionState → Bytes
  session_state_to_json s = print (save_session_state s)

  unfoldable pub session_state_from_json : Bytes → Option SessionState
  session_state_from_json json = do o ← parse json; load_session_state o
