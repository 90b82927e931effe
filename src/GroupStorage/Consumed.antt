-- ===== src/GroupStorage/Consumed.antt =====
-- What is left to do with a batch that was acknowledged.
use durastash.Prelude.{
  ℕ, ◌+◌, ◌<◌, ◌≡◌, refl, arith, Bool, true, false, none, some, List, Bytes, pos,
}
use durastash.Prelude.Int.{i64_limit}
use durastash.Outcome.{ok}
use durastash.Storage.Contract.{StorageLaws}
use durastash.Json.{JsonLaws}
use durastash.Maps.{find}
use durastash.Types.{BatchMetadata, batch_metadata_from_json}
use durastash.Env.{Env}
use durastash.BatchManager
use durastash.BatchManager.{make_batch_metadata_key}
use durastash.BatchManager.Metadata.{missing_batch}
use durastash.BatchManager.Deleting.{Deleted, acknowledge_batch_lem}
use durastash.GroupStorage.State.{GroupState, with_lock, release, in_world}
use durastash.GroupStorage.Loading.{acknowledge_batch, acknowledge_session}
use durastash.GroupStorage.Resaving.{resave_batch, resave_session, resave_found}

module _ (e : Env) (st : StorageLaws e.storage) (js : JsonLaws e.json) (g sid id : Bytes) where
  -- Without metadata, neither call does anything.
  calls_missing :
      (values : List Bytes) (s : GroupState e)
      → st.Ready s.sessions.world.store
      → s.locked ≡ false
      → s.batches.storage_set ≡ true
      → find g s.group_sessions ≡ some sid
      → st.contents s.sessions.world.store (make_batch_metadata_key g sid id) ≡ none
      → (resave_batch e g id values s ≡ (ok false, s))
        × (acknowledge_batch e g id s ≡ (ok false, s))
  unfolding resave_batch resave_session resave_found acknowledge_batch acknowledge_session with_lock
      release in_world
  calls_missing values s ready free set known absent =
      let (lookup, marking, acking) =
        missing_batch e st js s.batches set g sid id s.sessions.world ready absent in
      (ground (arith, lookup), ground (arith, acking))

  -- Over a ready storage that keeps its contract and has no batch of writes open, with a JSON
  -- library that keeps its laws, with the mutex free and the batch manager connected, for a group
  -- whose session is known and a batch of it whose metadata can be read and whose range of numbers
  -- from 0 on ends below 2^63 - 1, `AcknowledgeBatch` returns, and, if it reports success,
  -- `ResaveBatch` and a second `AcknowledgeBatch` of the same batch report a failure and change
  -- nothing.
  pub resave_batch-acknowledge_batch :
      (s : GroupState e)
      → st.Ready s.sessions.world.store
      → st.staged s.sessions.world.store ≡ none
      → s.locked ≡ false
      → s.batches.storage_set ≡ true
      → find g s.group_sessions ≡ some sid
      → (json : Bytes) (m : BatchMetadata)
      → st.contents s.sessions.world.store (make_batch_metadata_key g sid id) ≡ some json
      → batch_metadata_from_json e.json json ≡ some m
      → (a b : ℕ) → m.sequence_start ≡ pos a
      → m.sequence_end ≡ pos b
      → b + 1 < i64_limit
      → (values : List Bytes)
      → (done : Bool) × (after : GroupState e) × (acknowledge_batch e g id s ≡ (ok done, after))
        × (done ≡ true
            → (resave_batch e g id values after ≡ (ok false, after))
              × (acknowledge_batch e g id after ≡ (ok false, after)))
  resave_batch-acknowledge_batch s ready idle free set known json m there read a b begins ends below
        values =
      let acked : Deleted e st s.batches js set g sid id a b s.sessions.world
          (BatchManager.acknowledge_batch e s.batches g sid id s.sessions.world) =
        acknowledge_batch_lem e st s.batches js set g sid id a b json m s.sessions.world ready idle
          there read begins ends below in
      let after : GroupState e = record s {
        sessions = record s.sessions { world = acked.after };
        locked = false;
      } in
      let run = acked.returns in
      (
        acked.done,
        after,
        unfold acknowledge_batch acknowledge_session with_lock release in_world in
            ground (arith, run, free, known),
        λ d. calls_missing values after acked.ready refl set known (acked.metadata_gone d),
      )
