-- ===== src/SessionManager/Active.antt =====
-- The life of a session: started, it is active; terminated, it is not.
use durastash.Prelude.{◌≡◌, ◌≢◌, refl, sym, ◌∙◌, arith, Bool, true, false, none, some, [], Bytes}
use durastash.Prelude.Text.{bytes_eq_refl, bytes_eq_ne, is_empty}
use durastash.Prelude.Int.{to_i64}
use durastash.Contents.{Contents}
use durastash.Outcome.{Outcome, ok}
use durastash.Storage.Contract.{StorageLaws}
use durastash.Json.{JsonLaws}
use durastash.Types.{
  active, terminated, SessionState, session_state_to_json, session_state_from_json,
}
use durastash.Types.RoundTrip.{session_state_round_trip}
use durastash.Env.{Env, on_store, on_host, generate, now}
use durastash.Ulid
use durastash.SessionManager.{
  Sessions, make_session_state_key, in_world, set_manager, parse_state, is_active,
  initialize_session, terminate_session, terminate_found, is_session_active, active_found,
}

module _ (e : Env) (st : StorageLaws e.storage) (js : JsonLaws e.json) (g : Bytes) where
  abbrev pub Ready : Sessions e → Type 0
  Ready s = st.Ready s.world.store × (s.manager.storage_set ≡ true)

  abbrev pub contents : Sessions e → Contents
  contents s = st.contents s.world.store

  pub on_get :
      (k : Bytes) (s : Sessions e)
      → st.Ready s.world.store
      → in_world e (on_store e (e.storage.get k)) s ≡ (ok (contents s k), s)
  unfolding in_world on_store
  on_get k s r = rw (st.get_law k s.world.store r)

  -- A session whose stored state can be read is as active as that state says.
  pub active_read :
      (id json : Bytes) (state : SessionState) (s : Sessions e)
      → Ready s
      → contents s (make_session_state_key g id) ≡ some json
      → session_state_from_json e.json json ≡ some state
      → is_session_active e g id s ≡ (ok (is_active state.status), s)
  unfolding is_session_active active_found parse_state
  active_read id json state s (r, set) c read =
      ground (arith, on_get (make_session_state_key g id) s r)

  pub active_stored :
      (id : Bytes) (state : SessionState) (s : Sessions e)
      → Ready s
      → contents s (make_session_state_key g id) ≡ some (session_state_to_json e.json state)
      → is_session_active e g id s ≡ (ok (is_active state.status), s)
  active_stored id state s r c =
      active_read id (session_state_to_json e.json state) state s r c
        (session_state_round_trip e.json js state)

  -- What `InitializeSession` leaves behind: the manager's session is the new one; if the write
  -- succeeds, the session is active and no other key changes.
  pub record Started (s : Sessions e) (r : Outcome Bool × Sessions e) : Type 0 where
    pub done : Bool
    pub after : Sessions e
    pub returns : r ≡ (ok done, after)
    pub ready : Ready after
    pub id : after.manager.current_session_id ≡ (Ulid.generate e.system s.world.host).0
    pub group : after.manager.current_group_key ≡ g
    pub is_on :
        done ≡ true
        → is_session_active e g after.manager.current_session_id after ≡ (ok true, after)
    pub frame :
        done ≡ true
        → (j : Bytes) → j ≢ make_session_state_key g after.manager.current_session_id
        → contents after j ≡ contents s j

  -- Over a ready storage that keeps its contract, `InitializeSession` never throws and makes the
  -- generated identifier and the group the manager's current ones; if the write succeeds, the
  -- session is active and no other key changed.
  pub initialize_session_lem : (s : Sessions e) → Ready s → Started s (initialize_session e g s)
  unfolding initialize_session in_world set_manager on_store on_host generate now
  initialize_session_lem s (r, set) =
      let id = (Ulid.generate e.system s.world.host).0 in
      let h1 = (Ulid.generate e.system s.world.host).1 in
      let h2 = (Ulid.now e.system h1).1 in
      let state : SessionState = record {
        session_id = id;
        process_id = e.system.process_id;
        started_at = to_i64 (Ulid.now e.system h1).0;
        last_heartbeat = to_i64 (Ulid.now e.system h2).0;
        status = active;
      } in
      let key = make_session_state_key g id in
      let wrote = st.put_law key (session_state_to_json e.json state) s.world.store r in
      let after : Sessions e = record {
        world = record { store = wrote.after; host = (Ulid.now e.system h2).1 };
        manager = record s.manager { current_session_id = id; current_group_key = g };
      } in
      record {
        done = wrote.done;
        after = after;
        returns = ground (arith, wrote.returns);
        ready = (wrote.ready, set);
        id = refl;
        group = refl;
        is_on = λ d.
            active_stored id state after (wrote.ready, set)
              (wrote.holds d key ∙ rw (bytes_eq_refl key))
            ∙ unfold is_active in refl;
        frame = λ d j ne. wrote.holds d j ∙ rw (bytes_eq_ne key j (λ q. ne (sym q)));
      }

  -- The state that terminating stores: ended, at the time of the call.
  abbrev pub ended : SessionState → Sessions e → SessionState
  ended state s = record state {
    status = terminated;
    last_heartbeat = to_i64 (Ulid.now e.system s.world.host).0;
  }

  -- What `TerminateSession` leaves behind, for the manager's own session: `done` is what the storage
  -- answers to the write of the ended state.
  pub record Ended (state : SessionState) (s : Sessions e) (r : Outcome (Unit {0}) × Sessions e)
      : Type 0 where
    pub after : Sessions e
    pub done : Bool
    pub returns : r ≡ (ok tt, after)
    pub answered :
        e.storage.put
          (make_session_state_key g s.manager.current_session_id)
          (session_state_to_json e.json (ended state s))
          s.world.store
        ≡ (ok done, after.world.store)
    pub ready : Ready after
    pub forgotten : (after.manager.current_session_id ≡ []) × (after.manager.current_group_key ≡ [])
    pub stored :
        done ≡ true
        → contents after (make_session_state_key g s.manager.current_session_id)
          ≡ some (session_state_to_json e.json (ended state s))
    pub is_off :
        done ≡ true → is_session_active e g s.manager.current_session_id after ≡ (ok false, after)
    pub frame :
        done ≡ true
        → (j : Bytes) → j ≢ make_session_state_key g s.manager.current_session_id
        → contents after j ≡ contents s j

  -- Over a ready storage that keeps its contract, terminating the current session, where its state
  -- can be read, never throws and forgets the session and its group; it writes the state as ended
  -- at the time of the call, and if the storage reports success for that write, that state is
  -- stored, the session is not active any more and no other key changed.
  pub terminate_session_lem :
      (json : Bytes) (state : SessionState) (s : Sessions e)
      → Ready s
      → is_empty s.manager.current_session_id ≡ false
      → contents s (make_session_state_key g s.manager.current_session_id) ≡ some json
      → session_state_from_json e.json json ≡ some state
      → Ended state s (terminate_session e g s)
  terminate_session_lem json state s (r, set) live c read =
      let id = s.manager.current_session_id in
      let key = make_session_state_key g id in
      let wrote = st.put_law key (session_state_to_json e.json (ended state s)) s.world.store r in
      let after : Sessions e = record {
        world = record { store = wrote.after; host = (Ulid.now e.system s.world.host).1 };
        manager = record s.manager { current_session_id = []; current_group_key = [] };
      } in
      let held : wrote.done ≡ true
          → contents after key ≡ some (session_state_to_json e.json (ended state s)) =
        λ d. wrote.holds d key ∙ rw (bytes_eq_refl key) in
      record {
        after = after;
        done = wrote.done;
        returns =
            unfold terminate_session terminate_found parse_state in_world set_manager on_store
              on_host now in
            ground (arith, on_get key s r, wrote.returns, st.get_law key s.world.store r, read);
        answered = wrote.returns;
        ready = (wrote.ready, set);
        forgotten = (refl, refl);
        stored = held;
        is_off = λ d.
            active_stored id (ended state s) after (wrote.ready, set) (held d)
            ∙ unfold is_active in refl;
        frame = λ d j ne. wrote.holds d j ∙ rw (bytes_eq_ne key j (λ q. ne (sym q)));
      }

  -- Over a ready storage that keeps its contract, terminating under a group that has no state for
  -- the current session writes nothing, and forgets the session all the same.
  pub terminate_other_group :
      (s : Sessions e)
      → Ready s
      → is_empty s.manager.current_session_id ≡ false
      → contents s (make_session_state_key g s.manager.current_session_id) ≡ none
      → terminate_session e g s ≡ (
        ok tt,
        record s { manager = record s.manager { current_session_id = []; current_group_key = [] } },
      )
  unfolding terminate_session terminate_found set_manager
  terminate_other_group s (r, set) live c =
      ground (arith, on_get (make_session_state_key g s.manager.current_session_id) s r)
