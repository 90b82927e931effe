-- ===== src/GroupStorage/Resaves.antt =====
-- The guards of `ResaveBatch`.
use durastash.Prelude.{◌≡◌, ◌≢◌, refl, arith, true, false, some, List, [], ◌∷◌, Bytes}
use durastash.Outcome.{ok}
use durastash.Storage.Contract.{StorageLaws}
use durastash.Json.{JsonLaws}
use durastash.Maps.{find}
use durastash.Types.{
  BatchStatus, pending, loaded, acknowledged, BatchMetadata, batch_metadata_from_json,
}
use durastash.Env.{Env}
use durastash.BatchManager.{make_batch_metadata_key, is_loaded, get_batch_metadata}
use durastash.BatchManager.Metadata.{get_stored}
use durastash.GroupStorage.State.{GroupState, with_lock, release, in_world}
use durastash.GroupStorage.Loading.{acknowledge_batch, acknowledge_session}
use durastash.GroupStorage.Resaving.{resave_batch, resave_session, resave_found}

is_loaded-ne : (status : BatchStatus) → status ≢ loaded → is_loaded status ≡ false
unfolding is_loaded
is_loaded-ne pending other = refl
is_loaded-ne loaded other = absurd (other refl)
is_loaded-ne acknowledged other = refl

module _ (e : Env) (st : StorageLaws e.storage) (js : JsonLaws e.json) (g sid id : Bytes)
    (s : GroupState e) (ready : st.Ready s.sessions.world.store) (free : s.locked ≡ false)
    (set : s.batches.storage_set ≡ true) (known : find g s.group_sessions ≡ some sid) (json : Bytes)
    (m : BatchMetadata)
    (there : st.contents s.sessions.world.store (make_batch_metadata_key g sid id) ≡ some json)
    (read : batch_metadata_from_json e.json json ≡ some m) where
  abbrev pub held : GroupState e
  held = record s { locked = true }

  -- The lookup of the original batch.
  pub metadata_found : in_world (get_batch_metadata e s.batches g sid id) held ≡ (ok (some m), held)
  unfolding in_world
  metadata_found =
      rw (get_stored e st js s.batches set g sid id json m s.sessions.world ready there read) refl

  -- Over a ready storage that keeps its contract, with the mutex free, for a group whose session
  -- is known, `ResaveBatch` of a batch whose metadata can be read and whose status is pending or
  -- acknowledged returns false and changes nothing.
  pub resave_unloaded :
      (values : List Bytes) → m.status ≢ loaded → resave_batch e g id values s ≡ (ok false, s)
  unfolding resave_batch resave_session resave_found with_lock release
  resave_unloaded [] unloaded =
      let other = is_loaded-ne m.status unloaded in ground (arith, metadata_found)
  resave_unloaded (v ∷ vs) unloaded =
      let other = is_loaded-ne m.status unloaded in ground (arith, metadata_found)

  -- Over a ready storage that keeps its contract, with the mutex free, for a group whose session
  -- is known, `ResaveBatch` of a loaded batch whose metadata can be read, with no values left,
  -- does what `AcknowledgeBatch` does.
  pub resave_empty :
      is_loaded m.status ≡ true → resave_batch e g id [] s ≡ acknowledge_batch e g id s
  unfolding resave_batch resave_session resave_found acknowledge_batch acknowledge_session with_lock
  resave_empty in_use = ground (arith, metadata_found)
