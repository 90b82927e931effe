-- ===== src/GroupStorage/Saves.antt =====
-- What `Save` stores for a group with a session.
use durastash.Prelude.{
  ℕ, ◌+◌, ◌<◌, ◌≡◌, ◌≢◌, refl, ap, sym, ◌∙◌, arith, Bool, true, false, ◌==◌, some, [], ◌∷◌, Bytes,
  pos,
}
use durastash.Prelude.Text.{bytes_eq_refl, bytes_eq_ne, is_empty}
use durastash.Prelude.Int.{i64_limit}
use durastash.Contents.{Contents}
use durastash.Outcome.{Outcome, ok}
use durastash.Storage.Contract.{StorageLaws}
use durastash.Maps.{find, assign, find-assign}
use durastash.Env.{Env, on_store}
use durastash.BatchManager.{make_data_key, generate_data_keys}
use durastash.BatchManager.DataKeys.{range, keys_of, generate_data_keys-keys}
use durastash.GroupStorage.State.{GroupState, with_lock, release, in_world}
use durastash.GroupStorage.Saving.{
  batch_start_of, batch_key_of, session_or_create, get_or_create_session, batch_or_create,
  put_value, put_first, save_numbered, save,
}
use durastash.GroupStorage.Counters.{given, next_of_given}

-- The one key of a range of one number.
pub one_key :
    (g s id : Bytes) (n : ℕ)
    → n + 1 < i64_limit
    → generate_data_keys g s id (pos n) (pos n) ≡ make_data_key g s id (pos n) ∷ []
one_key g s id n h =
    generate_data_keys-keys g s id n n h ∙ ap (keys_of g s id n) (omega arith) ∙ single
  where
    single : keys_of g s id n 1 ≡ make_data_key g s id (pos n) ∷ []
    single = unfold keys_of range in refl

module _ (e : Env) (st : StorageLaws e.storage) (g sid : Bytes) where
  abbrev pub contents : GroupState e → Contents
  contents s = st.contents s.sessions.world.store

  -- What storing a value under the number `n` in the batch `id` leaves behind.
  pub record Saved (id : Bytes) (n : ℕ) (value : Bytes) (s : GroupState e)
      (r : Outcome Bool × GroupState e) : Type 0 where
    pub done : Bool
    pub after : GroupState e
    pub returns : r ≡ (ok done, after)
    pub ready : st.Ready after.sessions.world.store
    pub free : after.locked ≡ false
    pub counted : find g after.group_sequence_counters ≡ some (pos n)
    pub same_staged : st.staged after.sessions.world.store ≡ st.staged s.sessions.world.store
    pub same_sessions : after.group_sessions ≡ s.group_sessions
    pub same_current : after.group_current_batch_ids ≡ s.group_current_batch_ids
    pub same_size : after.default_batch_size ≡ s.default_batch_size
    pub same_batches : after.batches ≡ s.batches
    pub same_manager : after.sessions.manager ≡ s.sessions.manager
    pub stored : done ≡ true → contents after (make_data_key g sid id (pos n)) ≡ some value
    pub frame :
        done ≡ true
        → (j : Bytes) → j ≢ make_data_key g sid id (pos n)
        → contents after j ≡ contents s j

  -- Over a ready storage that keeps its contract, with the mutex free, for a group whose session
  -- is known and has an identifier, with a batch size above 0, a next number below 2^63 - 1 and a
  -- current batch for that number, `Save` returns with its mutex free, counts the value, and, if
  -- the write succeeds, stores it under the data key of its number in that batch and under no
  -- other key.
  pub save_current :
      (id value : Bytes) (n : ℕ) (s : GroupState e)
      → st.Ready s.sessions.world.store
      → s.locked ≡ false
      → find g s.group_sessions ≡ some sid
      → is_empty sid ≡ false
      → given e (find g s.group_sequence_counters) ≡ pos n
      → n + 1 < i64_limit
      → (s.default_batch_size == 0) ≡ false
      → find
          (batch_key_of g (batch_start_of (pos n) s.default_batch_size))
          s.group_current_batch_ids
        ≡ some id
      → Saved id n value s (save e g value s)
  save_current id value n s r free known live count small sized current =
      let key = make_data_key g sid id (pos n) in
      let wrote = st.put_law key value s.sessions.world.store r in
      let after : GroupState e = record s {
        sessions = record s.sessions { world = record s.sessions.world { store = wrote.after } };
        group_sequence_counters = assign g (pos n) s.group_sequence_counters;
      } in
      record {
        done = wrote.done;
        after = after;
        returns =
            unfold save get_or_create_session session_or_create save_numbered batch_or_create
              put_value put_first with_lock release in_world on_store in
            ground (
              arith,
              next_of_given e g (record s { locked = true }) (pos n) count,
              one_key g sid id n small,
              wrote.returns,
            );
        ready = wrote.ready;
        free = free;
        same_staged = wrote.batch;
        same_sessions = refl;
        same_current = refl;
        same_size = refl;
        same_batches = refl;
        same_manager = refl;
        counted = find-assign g g (pos n) s.group_sequence_counters ∙ rw (bytes_eq_refl g);
        stored = λ d. wrote.holds d key ∙ rw (bytes_eq_refl key);
        frame = λ d j ne. wrote.holds d j ∙ rw (bytes_eq_ne key j (λ q. ne (sym q)));
      }
