-- ===== src/GroupStorage/Creates.antt =====
-- What `Save` does for the first number of a batch: it creates the batch before it stores the value.
use durastash.Prelude.{
  ℕ, ◌+◌, ◌<◌, ◌≡◌, ◌≢◌, refl, sym, ap, ◌∙◌, arith, Bool, true, false, ◌==◌, ◌∷◌, none, some, Bytes,
  pos, [], if◌then◌else◌, length,
}
use durastash.Prelude.Text.{bytes_eq_refl, bytes_eq_ne, is_empty}
use durastash.Prelude.Int.{i64_limit}
use durastash.Outcome.{Outcome, ok}
use durastash.Storage.Contract.{StorageLaws}
use durastash.Json.{JsonLaws}
use durastash.System.{IsInRange}
use durastash.Maps.{find, assign, find-assign}
use durastash.Env.{Env, World, on_store}
use durastash.Ulid
use durastash.Ulid.{is_valid}
use durastash.Ulid.Validity.{is_valid_iff, is_valid-generate_at}
use durastash.BatchManager.{make_data_key, create_batch}
use durastash.BatchManager.Metadata.{Created, create_batch_lem}
use durastash.GroupStorage.State.{GroupState, with_lock, release, in_world}
use durastash.GroupStorage.Saving.{
  batch_start_of, batch_end_of, batch_key_of, session_or_create, get_or_create_session,
  batch_or_create, put_value, put_first, save_numbered, save,
}
use durastash.GroupStorage.Counters.{given, next_of_given}
use durastash.GroupStorage.Saves.{one_key}

-- A valid identifier is not empty.
pub is_empty-valid : (id : Bytes) → is_valid id ≡ true → is_empty id ≡ false
is_empty-valid id valid = not_empty id ((is_valid_iff id).0 valid).0
  where
    not_empty : (id : Bytes) → length id ≡ 26 → is_empty id ≡ false
    not_empty [] long = absurd (omega arith)
    not_empty (c ∷ cs) long = unfold is_empty in refl

pub is_valid-generate :
    (e : Env) (law : IsInRange e.system) (h : e.system.Host)
    → is_valid (Ulid.generate e.system h).0 ≡ true
unfolding Ulid.generate
is_valid-generate e law h =
    let now = Ulid.now e.system h in is_valid-generate_at e.system law now.0 now.1

module _ (e : Env) (st : StorageLaws e.storage) (js : JsonLaws e.json) (law : IsInRange e.system)
    (g sid value : Bytes) (n : ℕ) (s : GroupState e) where
  abbrev size : ℕ
  size = s.default_batch_size

  abbrev batch_key : Bytes
  batch_key = batch_key_of g (batch_start_of (pos n) size)

  abbrev made : Outcome Bytes × World e
  made =
      create_batch e s.batches g sid (batch_start_of (pos n) size)
        (batch_end_of (batch_start_of (pos n) size) size) s.sessions.world

  -- What is left behind when the batch `id` has been created in the world `w` and the value stored.
  pub record Filled (id : Bytes) (w : World e) (r : Outcome Bool × GroupState e) : Type 0 where
    pub done : Bool
    pub after : GroupState e
    pub returns : r ≡ (ok done, after)
    pub ready : st.Ready after.sessions.world.store
    pub free : after.locked ≡ false
    pub counted : find g after.group_sequence_counters ≡ some (pos n)
    pub current : after.group_current_batch_ids ≡ assign batch_key id s.group_current_batch_ids
    pub same_staged : st.staged after.sessions.world.store ≡ st.staged w.store
    pub same_sessions : after.group_sessions ≡ s.group_sessions
    pub same_size : after.default_batch_size ≡ size
    pub same_batches : after.batches ≡ s.batches
    pub same_manager : after.sessions.manager ≡ s.sessions.manager
    pub stored :
        done ≡ true
        → st.contents after.sessions.world.store (make_data_key g sid id (pos n)) ≡ some value
    pub frame :
        done ≡ true
        → (j : Bytes) → j ≢ make_data_key g sid id (pos n)
        → st.contents after.sessions.world.store j ≡ st.contents w.store j

  save_created :
      (id : Bytes) (w : World e)
      → made ≡ (ok id, w)
      → st.Ready w.store
      → is_empty id ≡ false
      → s.locked ≡ false
      → find g s.group_sessions ≡ some sid
      → is_empty sid ≡ false
      → given e (find g s.group_sequence_counters) ≡ pos n
      → n + 1 < i64_limit
      → (size == 0) ≡ false
      → find batch_key s.group_current_batch_ids ≡ none
      → Filled id w (save e g value s)
  save_created id w run r filled free known live count small sized fresh =
      let key = make_data_key g sid id (pos n) in
      let wrote = st.put_law key value w.store r in
      let after : GroupState e = record s {
        sessions = record s.sessions { world = record w { store = wrote.after } };
        group_sequence_counters = assign g (pos n) s.group_sequence_counters;
        group_current_batch_ids = assign batch_key id s.group_current_batch_ids;
      } in
      record {
        done = wrote.done;
        after = after;
        returns =
            unfold save get_or_create_session session_or_create save_numbered batch_or_create
              put_value put_first with_lock release in_world on_store in
            ground (
              arith,
              next_of_given e g (record s { locked = true }) (pos n) count,
              one_key g sid id n small,
              run,
              wrote.returns,
            );
        ready = wrote.ready;
        free = free;
        counted = find-assign g g (pos n) s.group_sequence_counters ∙ rw (bytes_eq_refl g);
        current = refl;
        same_staged = wrote.batch;
        same_sessions = refl;
        same_size = refl;
        same_batches = refl;
        same_manager = refl;
        stored = λ d. wrote.holds d key ∙ rw (bytes_eq_refl key);
        frame = λ d j ne. wrote.holds d j ∙ rw (bytes_eq_ne key j (λ q. ne (sym q)));
      }

  save_refused :
      (w : World e)
      → made ≡ (ok [], w)
      → s.locked ≡ false
      → find g s.group_sessions ≡ some sid
      → is_empty sid ≡ false
      → given e (find g s.group_sequence_counters) ≡ pos n
      → (size == 0) ≡ false
      → find batch_key s.group_current_batch_ids ≡ none
      → save e g value s ≡ (
        ok false,
        record s {
          sessions = record s.sessions { world = w };
          group_sequence_counters = assign g (pos n) s.group_sequence_counters;
        },
      )
  unfolding save get_or_create_session session_or_create save_numbered batch_or_create put_value
      with_lock release in_world is_empty
  save_refused w run free known live count sized fresh =
      ground (arith, next_of_given e g (record s { locked = true }) (pos n) count, run)

  module _ (set : s.batches.storage_set ≡ true) where
    abbrev id : Bytes
    id = (Ulid.generate e.system s.sessions.world.host).0

    -- What `Save` does for the first number of a batch: it creates the batch of the number's range, and
    -- then stores the value in it; if the batch was not created, it reports a failure and stores nothing.
    pub record Began (r : Outcome Bool × GroupState e) : Type 0 where
      pub batch :
          Created e st js s.batches set g sid
            (batch_start_of (pos n) size)
            (batch_end_of (batch_start_of (pos n) size) size)
            s.sessions.world
            made
      pub refused :
          batch.done ≡ false
          → r ≡ (
            ok false,
            record s {
              sessions = record s.sessions { world = batch.after };
              group_sequence_counters = assign g (pos n) s.group_sequence_counters;
            },
          )
      pub filled : batch.done ≡ true → Filled id batch.after r

    -- Over a ready storage that keeps its contract, with a JSON library and a generator that keep
    -- theirs, with the mutex free, for a group whose session is known and has an identifier, with
    -- a batch size above 0, a next number below 2^63 - 1 and no batch yet for that number, `Save`
    -- creates the batch of that number's range and makes it the current one, and then stores the
    -- value under its data key in it; if the batch cannot be created, `Save` reports a failure and
    -- stores nothing, but the number is used up.
    pub save_first :
        st.Ready s.sessions.world.store
        → s.locked ≡ false
        → find g s.group_sessions ≡ some sid
        → is_empty sid ≡ false
        → given e (find g s.group_sequence_counters) ≡ pos n
        → n + 1 < i64_limit
        → (size == 0) ≡ false
        → find batch_key s.group_current_batch_ids ≡ none
        → Began (save e g value s)
    save_first r free known live count small sized fresh =
        let c =
          create_batch_lem e st js s.batches set g sid (batch_start_of (pos n) size)
            (batch_end_of (batch_start_of (pos n) size) size) s.sessions.world r in
        record {
          batch = c;
          refused = λ d.
              save_refused c.after
                (c.returns ∙ ap (λ (b : Bool). (ok (if b then id else []), c.after)) d) free known
                live count sized fresh;
          filled = λ d.
              save_created id c.after
                (c.returns ∙ ap (λ (b : Bool). (ok (if b then id else []), c.after)) d) c.ready
                (is_empty-valid id (is_valid-generate e law s.sessions.world.host)) free known live
                count small sized fresh;
        }
