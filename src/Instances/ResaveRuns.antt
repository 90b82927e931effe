-- ===== src/Instances/ResaveRuns.antt =====
-- A loaded batch saved again with one of its values, over a database in memory.
use durastash.Prelude.{
  Bool, ◌≤◌, ◌≡◌, ◌≢◌, refl, arith, true, false, some, [], ◌∷◌, Bytes, codes, pos,
}
use durastash.Prelude.Text.{bytes_eq, bytes_eq_refl}
use durastash.Prelude.Int.{add_i64}
use durastash.Outcome.{ok}
use durastash.GroupStorage.Saving.{get_next_sequence_id}
use durastash.Maps.{find, assign}
use durastash.SessionManager.{new_session_manager}
use durastash.Types.{BatchMetadata, loaded, batch_metadata_to_json, batch_metadata_from_json}
use durastash.Types.RoundTrip.{stored_loaded_at, batch_metadata_round_trip}
use durastash.Ulid
use durastash.Ulid.{is_valid, all_encoding_chars, is_encoding_char, encoding_chars}
use durastash.BatchManager.{make_batch_metadata_key, make_data_key, is_loaded}
use durastash.GroupStorage.State.{GroupState}
use durastash.GroupStorage.Resaving.{resave_batch}
use durastash.GroupStorage.Counters.{given}
use durastash.GroupStorage.Rewrites.{Resaved, resave_batch_lem, get_next_sequence_id-resave_batch}
use durastash.Instances.Counting.{counting, counting-IsInRange}
use durastash.Instances.Objects.{plain_objects, plain_objects_laws}
use durastash.Instances.Memory.{memory_env, laws, world, bm, group, session}

abbrev batch : Bytes
batch = codes "0000000000000000000000000Z"

-- A batch of the numbers 0 and 1 that has been loaded.
abbrev metadata : BatchMetadata
metadata = record {
  batch_id = batch;
  sequence_start = pos 0;
  sequence_end = pos 1;
  status = loaded;
  created_at = pos 7;
  loaded_at = pos 9;
}

abbrev json : Bytes
json = batch_metadata_to_json plain_objects metadata

abbrev delivered : GroupState memory_env
delivered = record {
  sessions = record {
    world = world ((make_batch_metadata_key group session batch, json) ∷ []);
    manager = new_session_manager true;
  };
  db_path = codes "/db";
  batches = bm;
  locked = false;
  group_sequence_counters = (group, pos 1) ∷ [];
  group_sessions = (group, session) ∷ [];
  group_current_batch_ids = [];
  default_batch_size = 2;
}

reads : batch_metadata_from_json plain_objects json ≡ some metadata
unfolding stored_loaded_at
reads = batch_metadata_round_trip plain_objects plain_objects_laws metadata

there :
    find
      (make_batch_metadata_key group session batch)
      ((make_batch_metadata_key group session batch, json) ∷ [])
    ≡ some json
unfolding find bytes_eq make_batch_metadata_key
there = refl

known : find group delivered.group_sessions ≡ some session
unfolding find bytes_eq
known = refl

counted : given memory_env (find group delivered.group_sequence_counters) ≡ pos 2
unfolding find bytes_eq given add_i64
counted = refl

was_loaded : is_loaded metadata.status ≡ true
unfolding is_loaded
was_loaded = refl

batch-valid : is_valid batch ≡ true
unfolding is_valid all_encoding_chars is_encoding_char encoding_chars
batch-valid = refl

generated-ne-batch : (Ulid.generate counting 0).0 ≢ batch
generated-ne-batch p = cc (p, differ, bytes_eq_refl batch)
  where
    differ : bytes_eq (Ulid.generate counting 0).0 batch ≡ false
    differ =
        unfold bytes_eq Ulid.generate Ulid.generate_at Ulid.encode_timestamp Ulid.encoding_char
          Ulid.now Ulid.encode_random Ulid.encode_part_loop Ulid.random_part_loop in
        refl

resave_batch_lem_example :
    Resaved memory_env laws plain_objects_laws counting-IsInRange group session batch delivered
      (refl, refl)
      refl
      refl
      known
      json
      metadata
      there
      reads
      was_loaded
      refl
      2
      counted
      (codes "v")
      []
      (omega arith)
      0
      1
      refl
      refl
      (omega arith)
      batch-valid
      generated-ne-batch
      (resave_batch memory_env group batch (codes "v" ∷ []) delivered)
resave_batch_lem_example =
    resave_batch_lem memory_env laws plain_objects_laws counting-IsInRange group session batch
      delivered (refl, refl) refl refl known json metadata there reads was_loaded refl 2 counted
      (codes "v") [] (omega arith) 0 1 refl refl (omega arith) batch-valid generated-ne-batch

-- With two values, the number of the next one is the number of the second.
get_next_sequence_id-resave_batch_example :
    (done : Bool) × (after : GroupState memory_env) × (resave_batch memory_env group batch
        (codes "v" ∷ codes "w" ∷ [])
        delivered
      ≡ (ok done, after))
    × (done ≡ true
        → (t : Bytes) × (made_of : BatchMetadata) × (laws.contents after.sessions.world.store
              (make_batch_metadata_key group session (Ulid.generate counting 0).0)
            ≡ some t)
          × (batch_metadata_from_json plain_objects t ≡ some made_of)
          × (made_of.sequence_start ≡ pos 2)
          × (made_of.sequence_end ≡ pos 3)
          × (3 ≤ 3)
          × (laws.contents after.sessions.world.store
                (make_data_key group session (Ulid.generate counting 0).0 (pos 3))
              ≡ some (codes "w"))
          × (get_next_sequence_id memory_env group after ≡ (
            ok (pos 3),
            record after {
              group_sequence_counters = assign group (pos 3) after.group_sequence_counters;
            },
          )))
get_next_sequence_id-resave_batch_example =
    get_next_sequence_id-resave_batch memory_env laws plain_objects_laws counting-IsInRange group
      session batch delivered (refl, refl) refl refl known json metadata there reads was_loaded refl
      2 counted (codes "v") (codes "w" ∷ []) (omega arith) 0 1 refl refl (omega arith) batch-valid
      generated-ne-batch (omega arith)
