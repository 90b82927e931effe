-- ===== src/GroupStorage/Rewrites.antt =====
-- What `ResaveBatch` leaves of a loaded batch when values remain.
use durastash.Prelude.{
  ℕ, ◌+◌, ◌-◌, ◌<◌, ◌≡◌, ◌≢◌, refl, ap, sym, ◌∙◌, arith, Bool, Bool-cases, ◌≤◌, true, false, none,
  some, List, [], ◌∷◌, map, Bytes, pos, length, get_or, inl, inr, if◌then◌else◌,
}
use durastash.Prelude.Text.{bytes_eq_refl, is_empty}
use durastash.Prelude.Int.{i64_limit, add_i64-pos}
use durastash.Contents.{Elem}
use durastash.Outcome.{Outcome, ok}
use durastash.Storage.Contract.{StorageLaws}
use durastash.Json.{JsonLaws}
use durastash.System.{IsInRange}
use durastash.Maps.{find, assign, find-assign}
use durastash.Types.{BatchMetadata, batch_metadata_from_json}
use durastash.Env.{Env, World}
use durastash.Ulid
use durastash.Ulid.{is_valid}
use durastash.BatchManager.{
  make_batch_metadata_key, make_data_key, generate_data_keys, create_batch, is_loaded,
  get_batch_metadata,
}
use durastash.BatchManager.DataKeys.{range}
use durastash.BatchManager.Keys.{make_data_key-ne-metadata_key}
use durastash.BatchManager.Metadata.{Created, create_batch_lem, new_metadata}
use durastash.GroupStorage.State.{GroupState, with_lock, release, in_world}
use durastash.GroupStorage.Resaving.{resave_batch, resave_session, resave_found, resave_remaining}
use durastash.GroupStorage.Saving.{get_next_sequence_id}
use durastash.GroupStorage.Resaves.{metadata_found}
use durastash.GroupStorage.ResaveKeys.{
  all_keys, key, key-apart, generate_data_keys-key, Elem-key, key-spared, metadata_key-spared,
}
use durastash.GroupStorage.ResaveWrites.{puts-range, puts-other, resave_write_lem}
use durastash.GroupStorage.Ranges.{batch_end_of-pos}
use durastash.GroupStorage.Counters.{given, next_of_given}
use durastash.GroupStorage.Creates.{is_empty-valid, is_valid-generate}

module _ (e : Env) (st : StorageLaws e.storage) (js : JsonLaws e.json) (law : IsInRange e.system)
    (g sid id : Bytes) (s : GroupState e) (ready : st.Ready s.sessions.world.store)
    (free : s.locked ≡ false) (set : s.batches.storage_set ≡ true)
    (known : find g s.group_sessions ≡ some sid) (json : Bytes) (m : BatchMetadata)
    (there : st.contents s.sessions.world.store (make_batch_metadata_key g sid id) ≡ some json)
    (read : batch_metadata_from_json e.json json ≡ some m) (loaded : is_loaded m.status ≡ true)
    (idle : st.staged s.sessions.world.store ≡ none) (n : ℕ)
    (counted : given e (find g s.group_sequence_counters) ≡ pos n) (v : Bytes) (vs : List Bytes)
    (small : n + length (v ∷ vs) < i64_limit) (a b : ℕ) (begins : m.sequence_start ≡ pos a)
    (ends : m.sequence_end ≡ pos b) (below : b + 1 < i64_limit) (valid : is_valid id ≡ true)
    (other : (Ulid.generate e.system s.sessions.world.host).0 ≢ id) where
  abbrev new : Bytes
  new = (Ulid.generate e.system s.sessions.world.host).0

  abbrev last : ℕ
  last = n + length (v ∷ vs) - 1

  abbrev made : Outcome Bytes × World e
  made = create_batch e s.batches g sid (pos n) (pos last) s.sessions.world

  -- The state after the number has been taken.
  abbrev numbered : World e → GroupState e
  numbered w = record s {
    sessions = record s.sessions { world = w };
    group_sequence_counters = assign g (pos n) s.group_sequence_counters;
  }

  abbrev counting_on : GroupState e → GroupState e
  counting_on t = record t {
    group_sequence_counters = assign g (pos (n + 1)) t.group_sequence_counters;
  }

  -- What is left behind when the new batch has been created in the world `w`.
  pub record Rewritten (w : World e) (r : Outcome Bool × GroupState e) : Type 0 where
    pub done : Bool
    pub world : World e
    pub returns : r ≡ (ok done, numbered world)
    pub is_ready : st.Ready world.store
    pub closed : st.staged world.store ≡ none
    -- every value is under its number
    pub values :
        done ≡ true
        → (i : ℕ) → i < length (v ∷ vs)
        → st.contents world.store (make_data_key g sid new (pos (n + i)))
          ≡ some (get_or (v ∷ vs) i [])
    -- the old batch is gone
    pub gone :
        done ≡ true → (j : Bytes) → Elem j (all_keys g sid id m) → st.contents world.store j ≡ none
    -- and all else, the metadata of the new batch included, stays
    pub frame :
        done ≡ true
        → (j : Bytes) → ¬ Elem j (all_keys g sid id m)
        → ((i : ℕ) → n ≤ i → i < n + length (v ∷ vs) → j ≢ make_data_key g sid new (pos i))
        → st.contents world.store j ≡ st.contents w.store j

  new-valid : is_valid new ≡ true
  new-valid = is_valid-generate e law s.sessions.world.host

  new_keys :
      generate_data_keys g sid new (pos n) (pos last)
      ≡ map (key g sid new) (range n (length (v ∷ vs)))
  new_keys = generate_data_keys-key g sid new n (length (v ∷ vs)) (omega arith) small

  original :
      in_world (get_batch_metadata e s.batches g sid id) (record s { locked = true })
      ≡ (ok (some m), record s { locked = true })
  original = metadata_found e st js g sid id s ready free set known json m there read

  run_refused :
      (w : World e) → made ≡ (ok [], w) → resave_batch e g id (v ∷ vs) s ≡ (ok false, numbered w)
  unfolding resave_batch resave_session resave_found resave_remaining with_lock release in_world
      is_empty
  run_refused w run = ground (
    arith,
    original,
    next_of_given e g (record s { locked = true }) (pos n) counted,
    batch_end_of-pos n (length (v ∷ vs)) (omega arith) small,
    run,
  )

  run_written :
      (w : World e)
      → made ≡ (ok new, w)
      → st.Ready w.store
      → st.staged w.store ≡ none
      → Rewritten w (resave_batch e g id (v ∷ vs) s)
  run_written w run r closed =
      let written =
        resave_write_lem e st g sid id m new (pos n) (pos last) (v ∷ vs)
          (record (numbered w) { locked = true }) r closed in
      let ran = written.returns in
      record {
        done = written.done;
        world = written.world;
        returns =
            unfold resave_batch resave_session resave_found resave_remaining with_lock release
              in_world in
            ground (
              arith,
              original,
              next_of_given e g (record s { locked = true }) (pos n) counted,
              batch_end_of-pos n (length (v ∷ vs)) (omega arith) small,
              run,
              is_empty-valid new new-valid,
              ran,
            );
        is_ready = written.ready;
        closed = written.closed;
        values = λ d i h.
            written.others d (key g sid new (n + i))
              (key-spared g sid id new valid new-valid other m a b begins ends below (n + i))
            ∙ rw new_keys (puts-range (key g sid new) (key-apart g sid new) n (v ∷ vs) _ i h);
        gone = written.gone;
        frame = λ d j x y.
            written.others d j x
            ∙ rw new_keys (puts-other _ (v ∷ vs) _ j (Elem-key g sid new n (length (v ∷ vs)) j y));
      }

  -- What `ResaveBatch` does: it creates a pending batch for the values, and then, in one write, puts
  -- them in it and deletes the old one; if the new batch was not created, nothing of the old one changes.
  pub record Resaved (r : Outcome Bool × GroupState e) : Type 0 where
    pub batch : Created e st js s.batches set g sid (pos n) (pos last) s.sessions.world made
    pub refused : batch.done ≡ false → r ≡ (ok false, numbered batch.after)
    pub written : batch.done ≡ true → Rewritten batch.after r
    pub described :
        (made_it : batch.done ≡ true)
        → (written made_it).done ≡ true
        → (t : Bytes) × (st.contents
              (written made_it).world.store
              (make_batch_metadata_key g sid new)
            ≡ some t)
          × (batch_metadata_from_json e.json t
              ≡ some (new_metadata e st js s.batches set new (pos n) (pos last) batch.time))

  -- Over a ready storage that keeps its contract and has no batch of writes open, with a JSON
  -- library and a generator that keep theirs, with the mutex free, for a group whose session is
  -- known and a loaded batch of it whose metadata can be read, whose identifier is valid and not
  -- the next one that is generated, and whose range ends below 2^63 - 1, with numbers that stay
  -- below 2^63, `ResaveBatch` with values left creates a pending batch with a number for each
  -- value, from the next number of the group on; if that batch cannot be created, it reports a
  -- failure and writes nothing more; otherwise, if the one write that follows succeeds, each value
  -- is under its data key in the new batch, whose metadata read back, the metadata and the data
  -- keys of the old batch hold nothing, and every other key holds what it held; no batch of writes
  -- is left open.
  pub resave_batch_lem : Resaved (resave_batch e g id (v ∷ vs) s)
  resave_batch_lem =
      let c =
        create_batch_lem e st js s.batches set g sid (pos n) (pos last) s.sessions.world ready in
      let written : c.done ≡ true → Rewritten c.after (resave_batch e g id (v ∷ vs) s) = λ d.
        run_written c.after (c.returns ∙ ap (λ (b : Bool). (ok (if b then new else []), c.after)) d)
          c.ready (c.batch ∙ idle) in
      record {
        batch = c;
        refused = λ d.
            run_refused c.after
              (c.returns ∙ ap (λ (b : Bool). (ok (if b then new else []), c.after)) d);
        written = written;
        described = λ d e. (
          c.json,
          (written d).frame e (make_batch_metadata_key g sid new)
                (metadata_key-spared g sid id new valid new-valid other m a b begins ends below)
                (λ i low high p.
                  make_data_key-ne-metadata_key g sid new new (pos i) new-valid (sym p))
              ∙ c.written d,
          c.reads,
        );
      }

  -- Over a ready storage that keeps its contract and has no batch of writes open, with a JSON
  -- library and a generator that keep theirs, with the mutex free, for a group whose session is
  -- known and a loaded batch of it whose metadata can be read, whose identifier is valid and not
  -- the next one that is generated, and whose range ends below 2^63 - 1, with numbers that stay
  -- below 2^63, `ResaveBatch` with at least two values returns, and, if it reports success, the
  -- next number that the group gives lies in the range of the new batch and is the number of its
  -- second value, which is stored under it.
  pub get_next_sequence_id-resave_batch :
      0 < length vs
      → (done : Bool) × (after : GroupState e) × (resave_batch e g id (v ∷ vs) s ≡ (ok done, after))
        × (done ≡ true
            → (t : Bytes) × (made_of : BatchMetadata) × (st.contents after.sessions.world.store
                  (make_batch_metadata_key g sid new)
                ≡ some t)
              × (batch_metadata_from_json e.json t ≡ some made_of)
              × (made_of.sequence_start ≡ pos n)
              × (made_of.sequence_end ≡ pos last)
              × (n + 1 ≤ last)
              × (st.contents after.sessions.world.store (make_data_key g sid new (pos (n + 1)))
                  ≡ some (get_or vs 0 []))
              × (get_next_sequence_id e g after ≡ (ok (pos (n + 1)), counting_on after)))
  get_next_sequence_id-resave_batch more = elim (Bool-cases resave_batch_lem.batch.done) [
    | inr refusal ↦ (
      false,
      numbered resave_batch_lem.batch.after,
      resave_batch_lem.refused refusal,
      λ p. absurd (cc p),
    )
    | inl made_it ↦
        let written = resave_batch_lem.written made_it in
        (
          written.done,
          numbered written.world,
          written.returns,
          λ p.
              let (t, c, reads) = resave_batch_lem.described made_it p in
              (
                t,
                new_metadata e st js s.batches set new (pos n) (pos last)
                    resave_batch_lem.batch.time,
                c,
                reads,
                refl,
                refl,
                omega arith,
                written.values p 1 (omega (arith, more)),
                next_of_given e g (numbered written.world) (pos (n + 1)) taken,
              ),
        )
  ]
    where
      taken : given e (find g (assign g (pos n) s.group_sequence_counters)) ≡ pos (n + 1)
      taken =
          let count : find g (assign g (pos n) s.group_sequence_counters) ≡ some (pos n) =
            find-assign g g (pos n) s.group_sequence_counters ∙ rw (bytes_eq_refl g) in
          unfold given in rw count (add_i64-pos n 1 (omega (arith, small)))
