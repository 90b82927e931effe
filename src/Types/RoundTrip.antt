-- ===== src/Types/RoundTrip.antt =====
-- What is stored as JSON reads back as it was.
use durastash.Prelude.{◌≡◌, refl, Bool-cases, inl, inr, some, pos, if◌then◌else◌}
use durastash.Prelude.Text.{bytes_eq}
use durastash.Prelude.Int.{ltb_ℤ}
use durastash.Json.{Jsonable, JsonLaws}
use durastash.Types.{
  BatchStatus, pending, loaded, acknowledged, SessionStatus, active, terminated, BatchMetadata,
  SessionState, batch_status_to_string, string_to_batch_status, session_status_to_string,
  string_to_session_status, save_batch_metadata, load_batch_metadata, batch_metadata_to_json,
  batch_metadata_from_json, save_session_state, load_session_state, session_state_to_json,
  session_state_from_json,
}

string_to_batch_status_lem :
    (s : BatchStatus) → string_to_batch_status (batch_status_to_string s) ≡ s
unfolding string_to_batch_status batch_status_to_string bytes_eq
string_to_batch_status_lem pending = refl
string_to_batch_status_lem loaded = refl
string_to_batch_status_lem acknowledged = refl

string_to_session_status_lem :
    (s : SessionStatus) → string_to_session_status (session_status_to_string s) ≡ s
unfolding string_to_session_status session_status_to_string bytes_eq
string_to_session_status_lem active = refl
string_to_session_status_lem terminated = refl

-- What is kept of a time of loading: one that is not above 0 is not stored, and reads as 0.
unfoldable pub stored_loaded_at : BatchMetadata → BatchMetadata
stored_loaded_at m = record m {
  loaded_at = if ltb_ℤ (pos 0) m.loaded_at then m.loaded_at else pos 0;
}

module _ (js : Jsonable) (laws : JsonLaws js) where
  open laws use {
    get_string-set_string, get_string-set_int64, get_int64-set_int64, get_int64-set_string,
    has_key-empty, has_key-set_string, has_key-set_int64, parse-print,
  }

  load-save_batch :
      (m : BatchMetadata)
      → load_batch_metadata js (save_batch_metadata js m) ≡ some (stored_loaded_at m)
  unfolding load_batch_metadata save_batch_metadata stored_loaded_at bytes_eq
  load-save_batch m = elim (Bool-cases (ltb_ℤ (pos 0) m.loaded_at)) [
    | inl set ↦ rw set (
        simp (
          get_string-set_string, get_string-set_int64, get_int64-set_int64, get_int64-set_string,
          has_key-set_int64, string_to_batch_status_lem,
        ))
    | inr unset ↦ rw unset (
        simp (
          get_string-set_string, get_string-set_int64, get_int64-set_int64, get_int64-set_string,
          has_key-empty, has_key-set_string, has_key-set_int64, string_to_batch_status_lem,
        ))
  ]

  -- With a JSON library that keeps its laws, batch metadata read back from its JSON are what was
  -- written, except that a time of loading that is not above 0 reads as 0.
  pub batch_metadata_round_trip :
      (m : BatchMetadata)
      → batch_metadata_from_json js (batch_metadata_to_json js m) ≡ some (stored_loaded_at m)
  unfolding batch_metadata_from_json batch_metadata_to_json
  batch_metadata_round_trip m = rw parse-print (load-save_batch m)

  load-save_session : (s : SessionState) → load_session_state js (save_session_state js s) ≡ some s
  unfolding load_session_state save_session_state bytes_eq
  load-save_session s = simp (
    get_string-set_string, get_string-set_int64, get_int64-set_int64, get_int64-set_string,
    string_to_session_status_lem,
  )

  -- With a JSON library that keeps its laws, a session state read back from its JSON is what was
  -- written.
  pub session_state_round_trip :
      (s : SessionState) → session_state_from_json js (session_state_to_json js s) ≡ some s
  unfolding session_state_from_json session_state_to_json
  session_state_round_trip s = rw parse-print (load-save_session s)
