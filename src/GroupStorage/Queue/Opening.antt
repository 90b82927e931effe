-- ===== src/GroupStorage/Queue/Opening.antt =====
-- A group whose session has just been started holds no values, and what is saved from there on is loaded.
use durastash.Prelude.{
  ℕ, ◌+◌, ◌*◌, ◌<◌, ◌≡◌, ◌≢◌, refl, ap, ◌∙◌, arith, Bool, true, false, Bool-cases, inl, inr, none,
  some, List, [], Bytes, pos, length,
}
use durastash.Prelude.Text.{starts_with, is_empty, bytes_eq_refl}
use durastash.Prelude.Int.{i64_limit}
use durastash.Outcome.{Outcome, ok}
use durastash.Storage.Contract.{StorageLaws}
use durastash.Json.{JsonLaws}
use durastash.System.{IsInRange}
use durastash.Maps.{find, assign, find-assign}
use durastash.Types.{BatchMetadata, pending}
use durastash.Env.{Env, World}
use durastash.Ulid
use durastash.SessionManager
use durastash.SessionManager.{Sessions, start_heartbeat_thread, make_session_state_key, set_manager}
use durastash.SessionManager.Active.{initialize_session_lem}
use durastash.BatchManager.{batch_prefix}
use durastash.BatchManager.Keys.{batch_prefix-state_key}
use durastash.GroupStorage.State.{GroupState, with_lock, release, in_sessions}
use durastash.GroupStorage.Lifecycle.{initialize_session, register_session}
use durastash.GroupStorage.Saving.{batch_key_of}
use durastash.GroupStorage.Loading.{load}
use durastash.GroupStorage.Counters.{given}
use durastash.GroupStorage.Creates.{is_valid-generate, is_empty-valid}
use durastash.GroupStorage.Queue.{Stored, Queue, contents}
use durastash.GroupStorage.Queue.Runs.{save_all, HasFreshIds, save_all-load}

-- The heartbeat thread is started beside the store.
start_heartbeat_thread-world :
    (e : Env) (t : Sessions e)
    → (t' : Sessions e) × (start_heartbeat_thread e (pos 5000) t ≡ (ok tt, t'))
      × (t'.world ≡ t.world)
unfolding start_heartbeat_thread set_manager
start_heartbeat_thread-world e t = elim (Bool-cases t.manager.heartbeat_running) [
  | inl p ↦ (t, ground (arith, p), refl)
  | inr p ↦ (
    record t {
      manager = record t.manager {
        heartbeat_interval_ms = pos 5000;
        heartbeat_running = true;
        thread_joinable = true;
      };
    },
    ground (arith, p),
    refl,
  )
]

module _ (e : Env) (st : StorageLaws e.storage) (g : Bytes) (s : GroupState e) where
  -- No value of the group has been counted, and no batch of it is open or stored for the session.
  pub record IsUnused (sid : Bytes) : Type 0 where
    pub counted : find g s.group_sequence_counters ≡ none
    pub unopened :
        (i : ℕ)
        → find (batch_key_of g (pos (i * s.default_batch_size))) s.group_current_batch_ids ≡ none
    pub no_batches :
        (k : Bytes) → starts_with (batch_prefix g sid) k ≡ true → contents e st g sid s k ≡ none

module _ (e : Env) (st : StorageLaws e.storage) (g sid : Bytes) (s : GroupState e) where
  abbrev no_batch : BatchMetadata
  no_batch = record {
    batch_id = [];
    sequence_start = pos 0;
    sequence_end = pos 0;
    status = pending;
    created_at = pos 0;
    loaded_at = pos 0;
  }

  -- A session that is known and was not used yet holds nothing, and has no batch.
  pub unused-empty :
      st.Ready s.sessions.world.store
      → s.locked ≡ false
      → find g s.group_sessions ≡ some sid
      → is_empty sid ≡ false
      → s.batches.storage_set ≡ true
      → 0 < s.default_batch_size
      → IsUnused e st g s sid
      → (q : Queue e st g sid 0 [] s) × (q.stored.count ≡ 0)
  unfolding given
  unused-empty ready free known live set sized unused =
      (record { stored = nothing; has_last = λ h. absurd (omega arith) }, refl)
    where
      nothing : Stored e st g sid 0 [] s
      nothing = record {
        ready = ready;
        free = free;
        known = known;
        live = live;
        set = set;
        sized = sized;
        counted = ap (given e) unused.counted;
        count = 0;
        batch = λ _. no_batch;
        filled = omega arith;
        kept = omega arith;
        needed = omega arith;
        begins = λ i h. absurd (omega arith);
        ends = λ i h. absurd (omega arith);
        valid = λ i h. absurd (omega arith);
        distinct = λ i j h k q. absurd (omega arith);
        there = λ i h. absurd (omega arith);
        only = λ k v h c. absurd (cc (c, unused.no_batches k h));
        current = λ i h. absurd (omega arith);
        unopened = λ i h. unused.unopened i;
        values = λ i m h. absurd (omega arith);
      }

  pub unused-Queue :
      st.Ready s.sessions.world.store
      → s.locked ≡ false
      → find g s.group_sessions ≡ some sid
      → is_empty sid ≡ false
      → s.batches.storage_set ≡ true
      → 0 < s.default_batch_size
      → IsUnused e st g s sid
      → Queue e st g sid 0 [] s
  unused-Queue ready free known live set sized unused =
      (unused-empty ready free known live set sized unused).0

module _ (e : Env) (st : StorageLaws e.storage) (js : JsonLaws e.json) (law : IsInRange e.system)
    (g : Bytes) (s : GroupState e) (ready : st.Ready s.sessions.world.store)
    (free : s.locked ≡ false) (manager_set : s.sessions.manager.storage_set ≡ true)
    (set : s.batches.storage_set ≡ true) (sized : 0 < s.default_batch_size) where
  abbrev pub sid : Bytes
  sid = (Ulid.generate e.system s.sessions.world.host).0

  -- What `InitializeSession` leaves: if it reports success, the group has the generated session, and
  -- the batches that are stored for that session stay.
  pub record Begun (r : Outcome Bool × GroupState e) : Type 0 where
    pub done : Bool
    pub after : GroupState e
    pub returns : r ≡ (ok done, after)
    pub is_ready : st.Ready after.sessions.world.store
    pub unlocked : after.locked ≡ false
    pub same_size : after.default_batch_size ≡ s.default_batch_size
    pub same_counters : after.group_sequence_counters ≡ s.group_sequence_counters
    pub same_current : after.group_current_batch_ids ≡ s.group_current_batch_ids
    pub same_batches : after.batches ≡ s.batches
    pub known : done ≡ true → find g after.group_sessions ≡ some sid
    pub kept :
        done ≡ true
        → (k : Bytes) → starts_with (batch_prefix g sid) k ≡ true
        → contents e st g sid after k ≡ contents e st g sid s k

  pub initialize_session-Begun : Begun (initialize_session e g s)
  unfolding initialize_session register_session SessionManager.get_session_id with_lock release
      in_sessions
  initialize_session-Begun =
      let began = initialize_session_lem e st js g s.sessions (ready, manager_set) in
      let (t, beats, same) = start_heartbeat_thread-world e began.after in
      let run = began.returns in
      elim (Bool-cases began.done) [
        | inl p ↦ record {
          done = true;
          after = record s {
            sessions = t;
            locked = false;
            group_sessions = assign g began.after.manager.current_session_id s.group_sessions;
          };
          returns = ground (arith, run, p, beats, free);
          is_ready = rw same began.ready.0;
          unlocked = refl;
          same_size = refl;
          same_counters = refl;
          same_current = refl;
          same_batches = refl;
          known = λ _.
              find-assign g g began.after.manager.current_session_id s.group_sessions
              ∙ rw (bytes_eq_refl g, began.id) refl;
          kept = λ _ k h.
              let other : k ≢ make_session_state_key g began.after.manager.current_session_id = λ q.
                cc (h, q, ap (make_session_state_key g) began.id, batch_prefix-state_key g sid) in
              ap (λ (w : World e). st.contents w.store k) same ∙ began.frame p k other;
        }
        | inr p ↦ record {
          done = false;
          after = record s { sessions = began.after; locked = false };
          returns = ground (arith, run, p, free);
          is_ready = began.ready.0;
          unlocked = refl;
          same_size = refl;
          same_counters = refl;
          same_current = refl;
          same_batches = refl;
          known = λ h. absurd (cc h);
          kept = λ h. absurd (cc h);
        }
      ]

  -- The session that has been started holds nothing.
  pub initialize_session-Queue :
      IsUnused e st g s sid
      → (done : Bool) × (after : GroupState e) × (initialize_session e g s ≡ (ok done, after))
        × (after.default_batch_size ≡ s.default_batch_size)
        × (done ≡ true → (q : Queue e st g sid 0 [] after) × (q.stored.count ≡ 0))
  initialize_session-Queue unused =
      let begun = initialize_session-Begun in
      (
        begun.done,
        begun.after,
        begun.returns,
        begun.same_size,
        λ p.
            unused-empty e st g sid begun.after begun.is_ready begun.unlocked (begun.known p)
              (is_empty-valid sid (is_valid-generate e law s.sessions.world.host))
              (rw begun.same_batches set) (rw begun.same_size sized)
              (record {
                counted = ap (find g) begun.same_counters ∙ unused.counted;
                unopened = rw (begun.same_size, begun.same_current) unused.unopened;
                no_batches = λ k h. begun.kept p k h ∙ unused.no_batches k h;
              }),
      )

  -- Over a ready storage that keeps its contract, with a JSON library and a generator that keep
  -- theirs, with the mutex free, the managers connected, a batch size above 0 and numbers that
  -- stay below 2^63, for a group without counted values, current batches or stored batches of the
  -- new session, and with identifiers of new batches under which nothing is stored:
  -- `InitializeSession` returns, and if it reports success, then any sequence of Saves, ended by
  -- the first failure, returns, and if all report success, `Load` returns exactly the saved values
  -- in the order in which they were saved, across batches, and changes nothing.
  pub initialize-save-load :
      (vs : List Bytes)
      → IsUnused e st g s sid
      → length vs + s.default_batch_size < i64_limit
      → HasFreshIds e st g sid vs (initialize_session e g s).1
      → (opened : Bool) × (mid : GroupState e) × (initialize_session e g s ≡ (ok opened, mid))
        × (opened ≡ true
            → (done : Bool) × (after : GroupState e) × (save_all e g vs mid ≡ (ok done, after))
              × (done ≡ true → load e g after ≡ (ok vs, after)))
  initialize-save-load vs unused small fresh =
      let (opened, mid, run, size, holds) = initialize_session-Queue unused in
      let none_gone : 0 * mid.default_batch_size ≡ 0 = omega arith in
      (
        opened,
        mid,
        run,
        λ p. rw none_gone at (
            save_all-load e st js law g sid 0 vs [] mid (holds p).0 (rw size (omega arith))
              (rw run at fresh)),
      )
