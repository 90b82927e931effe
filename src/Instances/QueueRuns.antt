-- ===== src/Instances/QueueRuns.antt =====
-- Values saved and loaded again, over a database in memory.
use durastash.Prelude.{List, ◌≡◌, refl, arith, Bool, true, false, [], ◌∷◌, Bytes, codes}
use durastash.Prelude.Text.{bytes_eq, decimal, is_empty, decimal_loop}
use durastash.Prelude.Int.{add_i64, to_i64, to_u64}
use durastash.Maps.{find, assign}
use durastash.Outcome.{ok}
use durastash.Env.{on_store, generate, now}
use durastash.Ulid
use durastash.RocksDbStorage
use durastash.SessionManager
use durastash.SessionManager.{
  make_session_state_key, set_manager, in_world, new_session_manager, get_session_id,
  start_heartbeat_thread,
}
use durastash.GroupStorage.State.{GroupState, with_lock, release, in_sessions}
use durastash.GroupStorage.State
use durastash.GroupStorage.Lifecycle.{initialize_session, register_session}
use durastash.GroupStorage.Saving.{
  batch_key_of, batch_start_of, batch_end_of, save, get_or_create_session, session_or_create,
  get_next_sequence_id, next_sequence, save_numbered, batch_or_create, put_value, put_first,
}
use durastash.GroupStorage.Loading.{load}
use durastash.GroupStorage.Queue.Fifo.{NextIsFresh, save-Queue}
use durastash.GroupStorage.Queue.{Queue}
use durastash.GroupStorage.Queue.Runs.{save_all, HasFreshIds}
use durastash.GroupStorage.Loading.{BatchLoadResult, load_batch}
use durastash.GroupStorage.Queue.Slices.{all_values}
use durastash.GroupStorage.Queue.Streams.{initialize-save-load_batch}
use durastash.GroupStorage.Queue.Opening.{IsUnused, unused-Queue, initialize-save-load}
use durastash.BatchManager.{
  create_batch, data_keys_loop, generate_data_keys, rounds, make_batch_metadata_key, make_data_key,
}
use durastash.Instances.Counting.{counting-IsInRange}
use durastash.Instances.Objects.{plain_objects_laws}
use durastash.Instances.Memory.{memory_env, laws, writes, world, bm, group, session}

-- A new `GroupStorage`, with batches of one value.
abbrev fresh : GroupState memory_env
fresh = record {
  sessions = record { world = world []; manager = new_session_manager true };
  db_path = codes "/db";
  batches = bm;
  locked = false;
  group_sequence_counters = [];
  group_sessions = [];
  group_current_batch_ids = [];
  default_batch_size = 1;
}

abbrev sid : Bytes
sid = (Ulid.generate memory_env.system 0).0

unused : IsUnused memory_env laws group fresh sid
unfolding find
unused = record { counted = refl; unopened = λ i. refl; no_batches = λ k h. refl }

first_id : NextIsFresh memory_env laws group sid (initialize_session memory_env group fresh).1
unfolding initialize_session with_lock in_sessions SessionManager.initialize_session
    new_session_manager in_world generate set_manager now on_store RocksDbStorage.put
    register_session get_session_id start_heartbeat_thread find bytes_eq make_session_state_key
    make_batch_metadata_key Ulid.generate Ulid.generate_at Ulid.encode_timestamp Ulid.encoding_char
    Ulid.now Ulid.encode_random Ulid.encode_part_loop Ulid.random_part_loop make_data_key
first_id h = record { no_metadata = refl; no_values = λ m. refl }

second_id :
    NextIsFresh memory_env laws group sid
      (save memory_env group (codes "one") (initialize_session memory_env group fresh).1).1
unfolding initialize_session with_lock in_sessions SessionManager.initialize_session
    new_session_manager in_world generate set_manager now on_store RocksDbStorage.put
    register_session get_session_id start_heartbeat_thread find bytes_eq make_session_state_key
    make_batch_metadata_key Ulid.generate Ulid.generate_at Ulid.encode_timestamp Ulid.encoding_char
    Ulid.now Ulid.encode_random Ulid.encode_part_loop Ulid.random_part_loop make_data_key save
    get_or_create_session session_or_create assign is_empty get_next_sequence_id next_sequence
    save_numbered batch_or_create put_value State.in_world create_batch put_first data_keys_loop
    generate_data_keys rounds batch_end_of batch_start_of batch_key_of release add_i64 to_i64
    decimal decimal_loop to_u64
second_id h = record { no_metadata = refl; no_values = λ m. refl }

initialize-save-load_example :
    (opened : Bool) × (mid : GroupState memory_env) × (initialize_session memory_env group fresh
      ≡ (ok opened, mid))
    × (opened ≡ true
        → (done : Bool) × (after : GroupState memory_env) × (save_all memory_env group
              (codes "one" ∷ codes "two" ∷ [])
              mid
            ≡ (ok done, after))
          × (done ≡ true
              → load memory_env group after ≡ (ok (codes "one" ∷ codes "two" ∷ []), after)))
unfolding HasFreshIds new_session_manager
initialize-save-load_example =
    initialize-save-load memory_env laws plain_objects_laws counting-IsInRange group fresh
      (refl, refl) refl refl refl (omega arith) (codes "one" ∷ codes "two" ∷ []) unused
      (omega arith) (first_id, (second_id, tt))

initialize-save-load_batch_example :
    (opened : Bool) × (mid : GroupState memory_env) × (initialize_session memory_env group fresh
      ≡ (ok opened, mid))
    × (opened ≡ true
        → (done : Bool) × (saved : GroupState memory_env) × (save_all memory_env group
              (codes "one" ∷ codes "two" ∷ [])
              mid
            ≡ (ok done, saved))
          × (done ≡ true
              → (results : List BatchLoadResult) × (after : GroupState memory_env) × (load_batch
                    memory_env group 3 saved
                  ≡ (ok results, after))
                × (all_values results ≡ codes "one" ∷ codes "two" ∷ [])
                × ((load_batch memory_env group 3 after).0 ≡ ok [])))
unfolding HasFreshIds new_session_manager
initialize-save-load_batch_example =
    initialize-save-load_batch memory_env laws plain_objects_laws counting-IsInRange group fresh
      (refl, refl) refl refl refl (omega arith) (codes "one" ∷ codes "two" ∷ []) 3 unused
      (omega arith) (first_id, (second_id, tt)) writes (omega arith)

-- Both values are stored.
both_saved :
    (save_all memory_env group
      (codes "one" ∷ codes "two" ∷ [])
      (initialize_session memory_env group fresh).1).0
    ≡ ok true
unfolding initialize_session with_lock in_sessions SessionManager.initialize_session
    new_session_manager in_world generate set_manager now on_store RocksDbStorage.put
    register_session get_session_id start_heartbeat_thread find bytes_eq make_session_state_key
    make_batch_metadata_key Ulid.generate Ulid.generate_at Ulid.encode_timestamp Ulid.encoding_char
    Ulid.now Ulid.encode_random Ulid.encode_part_loop Ulid.random_part_loop make_data_key save
    get_or_create_session session_or_create assign is_empty get_next_sequence_id next_sequence
    save_numbered batch_or_create put_value State.in_world create_batch put_first data_keys_loop
    generate_data_keys rounds batch_end_of batch_start_of batch_key_of release add_i64 to_i64
    decimal decimal_loop to_u64 save_all
both_saved = refl

-- A group whose session was started before.
abbrev begun : GroupState memory_env
begun = record fresh { group_sessions = (group, session) ∷ [] }

begun-Queue : Queue memory_env laws group session 0 [] begun
unfolding find bytes_eq is_empty
begun-Queue =
    unused-Queue memory_env laws group session begun (refl, refl) refl refl refl refl (omega arith)
      (record { counted = refl; unopened = λ i. refl; no_batches = λ k h. refl })

save-Queue_example :
    (done : Bool) × (after : GroupState memory_env) × (save memory_env group (codes "one") begun
      ≡ (ok done, after))
    × (after.default_batch_size ≡ 1)
    × (done ≡ true → Queue memory_env laws group session 0 (codes "one" ∷ []) after)
unfolding find
save-Queue_example =
    save-Queue memory_env laws plain_objects_laws counting-IsInRange group session 0 []
      (codes "one") begun begun-Queue (omega arith)
      (λ h. record { no_metadata = refl; no_values = λ m. refl })
