-- ===== src/Instances/RestartRuns.antt =====
-- A session that is ended and started again, over a database in memory.
use durastash.Prelude.{◌≡◌, refl, arith, Bool, true, false, some, [], ◌∷◌, Bytes, codes, pos}
use durastash.Prelude.Text.{bytes_eq, is_empty, decimal}
use durastash.Maps.{find}
use durastash.Outcome.{ok}
use durastash.SessionManager.{new_session_manager}
use durastash.SessionManager
use durastash.Ulid
use durastash.Ulid.{is_valid, all_encoding_chars, is_encoding_char, encoding_chars}
use durastash.GroupStorage.State.{GroupState, with_lock, in_sessions}
use durastash.GroupStorage.Lifecycle.{initialize_session, terminate_session}
use durastash.GroupStorage.Saving.{batch_key_of, save}
use durastash.GroupStorage.Loading.{load}
use durastash.GroupStorage.Shutdowns.{CanEnd}
use durastash.GroupStorage.Queue.Restarting.{HasNoBatches, initialize-save_lost}
use durastash.Env.{on_store}
use durastash.RocksDbStorage
use durastash.Instances.Counting.{counting-IsInRange}
use durastash.Instances.Objects.{plain_objects_laws}
use durastash.Instances.Memory.{memory_env, laws, world, bm, group, session}

abbrev batch : Bytes
batch = codes "0000000000000000000000000Z"

-- One value was saved, and its batch acknowledged.
abbrev used : GroupState memory_env
used = record {
  sessions = record {
    world = world [];
    manager = record (new_session_manager true) {
      current_session_id = session;
      current_group_key = group;
    };
  };
  db_path = codes "/db";
  batches = bm;
  locked = false;
  group_sequence_counters = (group, pos 0) ∷ [];
  group_sessions = (group, session) ∷ [];
  group_current_batch_ids = (codes "g:0", batch) ∷ [];
  default_batch_size = 2;
}

connected : used.sessions.manager.storage_set ≡ true
unfolding new_session_manager
connected = refl

readable : CanEnd memory_env laws group used.sessions
unfolding find
readable json h = absurd (cc h)

current : find (batch_key_of group (pos 0)) used.group_current_batch_ids ≡ some batch
unfolding find bytes_eq batch_key_of decimal
current = refl

batch-valid : is_valid batch ≡ true
unfolding is_valid all_encoding_chars is_encoding_char encoding_chars
batch-valid = refl

nothing_stored :
    HasNoBatches memory_env laws group
      (Ulid.generate memory_env.system
        (terminate_session memory_env group used).1.sessions.world.host).0
      (terminate_session memory_env group used).1
unfolding terminate_session with_lock in_sessions SessionManager.terminate_session
    SessionManager.terminate_found SessionManager.in_world SessionManager.set_manager on_store
    RocksDbStorage.get find new_session_manager is_empty
nothing_stored k t = refl

initialize-save_lost_example :
    (mid : GroupState memory_env) × (terminate_session memory_env group used ≡ (ok tt, mid))
    × (opened : Bool) × (begun : GroupState memory_env) × (initialize_session memory_env group mid
        ≡ (ok opened, begun))
    × (opened ≡ true
        → (saved : Bool) × (after : GroupState memory_env) × (save memory_env group
              (codes "v")
              begun
            ≡ (ok saved, after))
          × (saved ≡ true → load memory_env group after ≡ (ok [], after)))
initialize-save_lost_example =
    initialize-save_lost memory_env laws plain_objects_laws counting-IsInRange group used
      ((refl, refl), refl) refl connected refl readable batch (codes "v") (omega arith)
      (omega arith) current batch-valid nothing_stored
