-- ===== src/Instances/GroupRuns.antt =====
-- The theorems on groups, over a database in memory.
use durastash.Prelude.{Bool, ◌≡◌, refl, arith, true, false, some, [], ◌∷◌, Bytes, codes, pos}
use durastash.Prelude.Text.{bytes_eq, decimal, is_empty}
use durastash.Prelude.Int.{add_i64}
use durastash.Maps.{find}
use durastash.Outcome.{ok, deadlock}
use durastash.SessionManager.{new_session_manager}
use durastash.GroupStorage.State.{GroupState}
use durastash.GroupStorage.Saving.{batch_key_of, batch_start_of, save}
use durastash.GroupStorage.Resaving.{resave_batch}
use durastash.GroupStorage.Counters.{given}
use durastash.GroupStorage.Saves.{Saved, save_current}
use durastash.GroupStorage.Creates.{Began, save_first}
use durastash.Instances.Counting.{counting-IsInRange}
use durastash.Instances.Objects.{plain_objects, plain_objects_laws}
use durastash.Types.{BatchMetadata, loaded, batch_metadata_to_json, batch_metadata_from_json}
use durastash.Types.RoundTrip.{stored_loaded_at, batch_metadata_round_trip}
use durastash.GroupStorage.Consumed.{resave_batch-acknowledge_batch}
use durastash.GroupStorage.Loading.{acknowledge_batch}
use durastash.BatchManager.{make_batch_metadata_key}
use durastash.GroupStorage.Unknown.{save_deadlock}
use durastash.Instances.Memory.{memory_env, laws, world, bm, group, session, batch, metadata}

abbrev fresh : GroupState memory_env
fresh = record {
  sessions = record { world = world []; manager = new_session_manager true };
  db_path = codes "/db";
  batches = bm;
  locked = false;
  group_sequence_counters = [];
  group_sessions = [];
  group_current_batch_ids = [];
  default_batch_size = 100;
}

-- After 250 values, with the third batch open.
abbrev running : GroupState memory_env
running = record fresh {
  group_sequence_counters = (group, pos 249) ∷ [];
  group_sessions = (group, session) ∷ [];
  group_current_batch_ids = (codes "g:200", batch) ∷ [];
}

save_current_example :
    Saved memory_env laws group session batch 250
      (codes "v")
      running
      (save memory_env group (codes "v") running)
unfolding find bytes_eq given batch_key_of batch_start_of decimal is_empty add_i64
save_current_example =
    save_current memory_env laws group session batch (codes "v") 250 running (refl, refl) refl refl
      refl refl (omega arith) refl refl

save_deadlock_example :
    save memory_env group (codes "v") fresh ≡ (deadlock, record fresh { locked = true })
unfolding find
save_deadlock_example = save_deadlock memory_env group fresh refl refl (codes "v")

-- The same group with the metadata of one batch in the store.
abbrev stocked : GroupState memory_env
stocked = record running {
  sessions = record {
    world = world (
        (make_batch_metadata_key group session batch, batch_metadata_to_json plain_objects metadata)
        ∷ []);
    manager = new_session_manager true;
  };
}

-- The group before its first value.
abbrev begun : GroupState memory_env
begun = record running { group_sequence_counters = []; group_current_batch_ids = [] }

save_first_example :
    Began memory_env laws plain_objects_laws counting-IsInRange group session
      (codes "v")
      0
      begun
      refl
      (save memory_env group (codes "v") begun)
unfolding find bytes_eq given is_empty
save_first_example =
    save_first memory_env laws plain_objects_laws counting-IsInRange group session (codes "v") 0
      begun refl (refl, refl) refl refl refl refl (omega arith) refl refl

abbrev loaded_metadata : BatchMetadata
loaded_metadata = record metadata { status = loaded; loaded_at = pos 9 }

read_back :
    (m : BatchMetadata)
    → batch_metadata_from_json plain_objects (batch_metadata_to_json plain_objects m)
      ≡ some (stored_loaded_at m)
read_back m = batch_metadata_round_trip plain_objects plain_objects_laws m

-- The group with this metadata in the store.
abbrev holding : BatchMetadata → GroupState memory_env
holding m = record running {
  sessions = record {
    world = world (
        (make_batch_metadata_key group session batch, batch_metadata_to_json plain_objects m) ∷ []);
    manager = new_session_manager true;
  };
}

found :
    (json : Bytes)
    → find
        (make_batch_metadata_key group session batch)
        ((make_batch_metadata_key group session batch, json) ∷ [])
      ≡ some json
unfolding find bytes_eq make_batch_metadata_key
found json = refl

resave_batch-acknowledge_batch_example :
    (done : Bool) × (after : GroupState memory_env) × (acknowledge_batch memory_env group batch
        (holding loaded_metadata)
      ≡ (ok done, after))
    × (done ≡ true
        → (resave_batch memory_env group batch (codes "v" ∷ []) after ≡ (ok false, after))
          × (acknowledge_batch memory_env group batch after ≡ (ok false, after)))
unfolding find bytes_eq stored_loaded_at
resave_batch-acknowledge_batch_example =
    resave_batch-acknowledge_batch memory_env laws plain_objects_laws group session batch
      (holding loaded_metadata) (refl, refl) refl refl refl refl
      (batch_metadata_to_json plain_objects loaded_metadata) loaded_metadata
      (found (batch_metadata_to_json plain_objects loaded_metadata)) (read_back loaded_metadata) 0 1
      refl refl (omega arith) (codes "v" ∷ [])
