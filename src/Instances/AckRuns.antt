-- ===== src/Instances/AckRuns.antt =====
-- Values saved and acknowledged, over a database in memory.
use durastash.Prelude.{
  map, take, ℕ, ◌+◌, ◌*◌, ◌≤◌, ◌<◌, ◌≡◌, refl, ap, sym, ◌∙◌, arith, Bool, true, false, none, [],
  ◌∷◌, List, Bytes, codes, drop, length,
}
use durastash.Prelude.Text.{bytes_eq, decimal, is_empty, decimal_loop}
use durastash.Prelude.Int.{add_i64, to_i64, to_u64, i64_limit}
use durastash.Maps.{find, assign}
use durastash.Outcome.{Outcome, ok}
use durastash.Env.{on_store, generate, now}
use durastash.Ulid
use durastash.RocksDbStorage
use durastash.SessionManager.{new_session_manager}
use durastash.GroupStorage.State.{GroupState, with_lock, release}
use durastash.GroupStorage.State
use durastash.GroupStorage.Saving.{
  batch_key_of, batch_start_of, batch_end_of, save, get_or_create_session, session_or_create,
  get_next_sequence_id, next_sequence, save_numbered, batch_or_create, put_value, put_first,
}
use durastash.GroupStorage.Loading.{load, load_batch, acknowledge_batch}
use durastash.BatchManager.{
  create_batch, data_keys_loop, generate_data_keys, rounds, make_batch_metadata_key, make_data_key,
}
use durastash.GroupStorage.Queue.{Queue}
use durastash.GroupStorage.Queue.Fifo.{save-Queue}
use durastash.GroupStorage.Queue.Opening.{unused-Queue}
use durastash.GroupStorage.Queue.Acknowledging.{acknowledge-Queue, acknowledge-save_lost}
use mathlib.Core.Path.{subst}
use durastash.GroupStorage.Loading.{BatchLoadResult}
use durastash.GroupStorage.Queue.Opening.{unused-empty}
use durastash.GroupStorage.Queue.Cursors.{Cursor, save-Cursor, load_batch-Cursor}
use durastash.GroupStorage.Queue.Skipping.{load_batch-save_skipped}
use durastash.GroupStorage.Queue.Batches.{load_batch-Queue, waiting}
use durastash.GroupStorage.Queue.Delivering.{delivery}
use durastash.RocksDbStorage.{RocksState}
use durastash.Instances.Counting.{counting-IsInRange}
use durastash.Instances.Objects.{plain_objects_laws}
use durastash.Instances.Memory.{memory_env, laws, writes, world, bm, group, session}

-- A group with a session and batches of `n` values.
abbrev begun : ℕ → GroupState memory_env
begun n = record {
  sessions = record { world = world []; manager = new_session_manager true };
  db_path = codes "/db";
  batches = bm;
  locked = false;
  group_sequence_counters = [];
  group_sessions = (group, session) ∷ [];
  group_current_batch_ids = [];
  default_batch_size = n;
}

abbrev values : List Bytes
values = codes "one" ∷ []

abbrev saved : ℕ → GroupState memory_env
saved n = (save memory_env group (codes "one") (begun n)).1

begun-Queue : (n : ℕ) → 0 < n → Queue memory_env laws group session 0 [] (begun n)
unfolding find bytes_eq is_empty
begun-Queue n sized =
    unused-Queue memory_env laws group session (begun n) (refl, refl) refl refl refl refl sized
      (record { counted = refl; unopened = λ i. refl; no_batches = λ k h. refl })

-- The value is saved, if the run says so.
saved-Queue :
    (n : ℕ)
    → 0 < n
    → 0 + n < i64_limit
    → (save memory_env group (codes "one") (begun n)).0 ≡ ok true
    → Queue memory_env laws group session 0 values (saved n) × ((saved n).default_batch_size ≡ n)
unfolding find
saved-Queue n sized small ran =
    let (done, after, run, size, holds) =
      save-Queue memory_env laws plain_objects_laws counting-IsInRange group session 0 []
        (codes "one") (begun n) (begun-Queue n sized) small
        (λ h. record { no_metadata = refl; no_values = λ m. refl }) in
    let at : saved n ≡ after = ap (λ (r : Outcome Bool × GroupState memory_env). r.1) run in
    let result : ok done ≡ ok true =
      sym (ap (λ (r : Outcome Bool × GroupState memory_env). r.0) run) ∙ ran in
    let success : done ≡ true = cc result in rw at (holds success, size)

ran_one : (save memory_env group (codes "one") (begun 1)).0 ≡ ok true
unfolding save with_lock get_or_create_session session_or_create find bytes_eq is_empty
    get_next_sequence_id next_sequence save_numbered batch_or_create put_value State.in_world
    create_batch generate now on_store RocksDbStorage.put Ulid.generate Ulid.generate_at
    Ulid.encode_timestamp Ulid.encoding_char Ulid.now Ulid.encode_random Ulid.encode_part_loop
    Ulid.random_part_loop data_keys_loop generate_data_keys rounds put_first batch_end_of
    batch_start_of batch_key_of release assign add_i64 to_i64 to_u64 decimal decimal_loop
    make_data_key make_batch_metadata_key
ran_one = refl

ran_two : (save memory_env group (codes "one") (begun 2)).0 ≡ ok true
unfolding save with_lock get_or_create_session session_or_create find bytes_eq is_empty
    get_next_sequence_id next_sequence save_numbered batch_or_create put_value State.in_world
    create_batch generate now on_store RocksDbStorage.put Ulid.generate Ulid.generate_at
    Ulid.encode_timestamp Ulid.encoding_char Ulid.now Ulid.encode_random Ulid.encode_part_loop
    Ulid.random_part_loop data_keys_loop generate_data_keys rounds put_first batch_end_of
    batch_start_of batch_key_of release assign add_i64 to_i64 to_u64 decimal decimal_loop
    make_data_key make_batch_metadata_key
ran_two = refl

idle_one : laws.staged (saved 1).sessions.world.store ≡ none
unfolding save with_lock get_or_create_session session_or_create find bytes_eq is_empty
    get_next_sequence_id next_sequence save_numbered batch_or_create put_value State.in_world
    create_batch generate now on_store RocksDbStorage.put Ulid.generate Ulid.generate_at
    Ulid.encode_timestamp Ulid.encoding_char Ulid.now Ulid.encode_random Ulid.encode_part_loop
    Ulid.random_part_loop data_keys_loop generate_data_keys rounds put_first batch_end_of
    batch_start_of batch_key_of release assign add_i64 to_i64 to_u64 decimal decimal_loop
    make_data_key make_batch_metadata_key
idle_one = refl

idle_two : laws.staged (saved 2).sessions.world.store ≡ none
unfolding save with_lock get_or_create_session session_or_create find bytes_eq is_empty
    get_next_sequence_id next_sequence save_numbered batch_or_create put_value State.in_world
    create_batch generate now on_store RocksDbStorage.put Ulid.generate Ulid.generate_at
    Ulid.encode_timestamp Ulid.encoding_char Ulid.now Ulid.encode_random Ulid.encode_part_loop
    Ulid.random_part_loop data_keys_loop generate_data_keys rounds put_first batch_end_of
    batch_start_of batch_key_of release assign add_i64 to_i64 to_u64 decimal decimal_loop
    make_data_key make_batch_metadata_key
idle_two = refl

-- A full batch of one value, and a batch of two with room for one.
one : Queue memory_env laws group session 0 values (saved 1) × ((saved 1).default_batch_size ≡ 1)
one = saved-Queue 1 (omega arith) (omega arith) ran_one

two : Queue memory_env laws group session 0 values (saved 2) × ((saved 2).default_batch_size ≡ 2)
two = saved-Queue 2 (omega arith) (omega arith) ran_two

one_batch : 0 + 1 ≡ two.0.stored.count
one_batch =
    let needed : two.0.stored.count * 2 ≤ length values + 2 = rw two.1 at two.0.stored.needed in
    let filled : length values ≤ two.0.stored.count * 2 = rw two.1 at two.0.stored.filled in
    omega arith

has_room : length values < two.0.stored.count * (saved 2).default_batch_size
has_room = rw two.1 (omega (arith, one_batch))

acknowledge-Queue_example :
    (done : Bool) × (after : GroupState memory_env) × (acknowledge_batch memory_env group
        (one.0.stored.batch 0).batch_id
        (saved 1)
      ≡ (ok done, after))
    × (done ≡ true
        → Queue memory_env laws group session 1 values after
          × (load memory_env group after
              ≡ (ok (drop (1 * (saved 1).default_batch_size) values), after)))
acknowledge-Queue_example =
    acknowledge-Queue memory_env laws plain_objects_laws group session 0 values (saved 1) one.0
      (rw one.1 (omega arith)) idle_one (rw one.1 (omega arith))

acknowledge-save_lost_example :
    (acked : Bool) × (mid : GroupState memory_env) × (acknowledge_batch memory_env group
        (two.0.stored.batch 0).batch_id
        (saved 2)
      ≡ (ok acked, mid))
    × (acked ≡ true
        → (done : Bool) × (after : GroupState memory_env) × (save memory_env group (codes "two") mid
            ≡ (ok done, after))
          × (done ≡ true → load memory_env group after ≡ (ok [], after)))
acknowledge-save_lost_example =
    acknowledge-save_lost memory_env laws plain_objects_laws group session 0 values (saved 2)
      two.0.stored one_batch has_room (rw two.1 (omega arith)) idle_two (codes "two")

load_batch-Queue_example :
    (after : GroupState memory_env) × (load_batch memory_env group 1 (saved 1) ≡ (
      ok (
          map
            (delivery (λ i. (one.0.stored.batch i).batch_id) (saved 1).default_batch_size values)
            (take 1 (waiting memory_env laws group session 0 values (saved 1) one.0))),
      after,
    ))
    × (q' : Queue memory_env laws group session 0 values after) × (waiting memory_env laws group
          session 0 values after q'
        ≡ drop 1 (waiting memory_env laws group session 0 values (saved 1) one.0))
    × (load memory_env group after ≡ (ok (drop (0 * (saved 1).default_batch_size) values), after))
load_batch-Queue_example =
    load_batch-Queue memory_env laws plain_objects_laws group session 0 values (saved 1) one.0 1
      (rw one.1 (omega arith)) writes

-- The batch of two with one value has been delivered.
started : Cursor memory_env laws group session 0 0 [] (begun 2)
unfolding find bytes_eq is_empty
started =
    let (q, none_yet) =
      unused-empty memory_env laws group session (begun 2) (refl, refl) refl refl refl refl
        (omega arith) (record { counted = refl; unopened = λ i. refl; no_batches = λ k h. refl }) in
    record {
      queue = q;
      below = omega arith;
      within = omega arith;
      delivered = λ i h. absurd (omega arith);
      waits = λ i h. absurd (omega (arith, none_yet));
    }

filled :
    Cursor memory_env laws group session 0 0 values (saved 2) × ((saved 2).default_batch_size ≡ 2)
unfolding find
filled =
    let (done, after, run, size, holds) =
      save-Cursor memory_env laws group session 0 0 [] (begun 2) started plain_objects_laws
        counting-IsInRange (codes "one") (omega arith)
        (λ h. record { no_metadata = refl; no_values = λ m. refl }) in
    let at : saved 2 ≡ after = ap (λ (r : Outcome Bool × GroupState memory_env). r.1) run in
    let result : ok done ≡ ok true =
      sym (ap (λ (r : Outcome Bool × GroupState memory_env). r.0) run) ∙ ran_two in
    let success : done ≡ true = cc result in rw at (holds success, size)

abbrev delivered : GroupState memory_env
delivered = (load_batch memory_env group 1 (saved 2)).1

read :
    (c : Cursor memory_env laws group session 0 1 values delivered) × (c.queue.stored.count ≡ 1)
    × (delivered.default_batch_size ≡ 2)
read =
    let q = filled.0.queue.stored in
    let needed : q.count * 2 ≤ length values + 2 = rw filled.1 at q.needed in
    let full : length values ≤ q.count * 2 = rw filled.1 at q.filled in
    let (m, results, after, is_m, returns, are, all, size, c, same) =
      load_batch-Cursor memory_env laws group session 0 0 values (saved 2) filled.0
        plain_objects_laws 1 (rw filled.1 (omega arith)) writes in
    let one_more : 0 + m ≡ 1 = omega (arith, is_m, needed, full) in
    let at : delivered ≡ after =
      ap (λ (r : Outcome (List BatchLoadResult) × GroupState memory_env). r.1) returns in
    let single : c.queue.stored.count ≡ 1 = omega (arith, same, needed, full) in
    rw at (
      subst
        (λ (u : ℕ).
          (c : Cursor memory_env laws group session 0 u values after) × (c.queue.stored.count ≡ 1)
          × (after.default_batch_size ≡ 2))
        one_more (c, single, size ∙ filled.1))

load_batch-save_skipped_example :
    (done : Bool) × (mid : GroupState memory_env) × (save memory_env group (codes "two") delivered
      ≡ (ok done, mid))
    × (done ≡ true
        → (after : GroupState memory_env) × (load_batch memory_env group 9 mid ≡ (ok [], after))
          × (load memory_env group after ≡ (
            ok (drop (0 * delivered.default_batch_size) (codes "one" ∷ codes "two" ∷ [])),
            after,
          )))
load_batch-save_skipped_example =
    load_batch-save_skipped memory_env laws plain_objects_laws counting-IsInRange group session 0 1
      values delivered read.0 (sym read.1) (rw (read.1, read.2) (omega arith))
      (rw read.2 (omega arith)) writes (codes "two") 9
