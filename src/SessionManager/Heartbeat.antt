-- ===== src/SessionManager/Heartbeat.antt =====
-- The heartbeat of the current session.
use durastash.Prelude.{◌≡◌, ◌≢◌, refl, sym, ◌∙◌, arith, Bool, true, false, some, Bytes}
use durastash.Prelude.Text.{bytes_eq_refl, bytes_eq_ne, is_empty}
use durastash.Prelude.Int.{to_i64}
use durastash.Outcome.{Outcome, ok}
use durastash.Storage.Contract.{StorageLaws}
use durastash.Json.{JsonLaws}
use durastash.Types.{SessionState, session_state_to_json, session_state_from_json}
use durastash.Env.{Env, on_store, on_host, now}
use durastash.Ulid
use durastash.SessionManager.{
  Sessions, make_session_state_key, in_world, parse_state, is_active, update_heartbeat,
  update_found, is_session_active,
}
use durastash.SessionManager.Active.{Ready, contents, active_stored}

module _ (e : Env) (st : StorageLaws e.storage) (js : JsonLaws e.json) (g : Bytes) where
  -- The time that the next heartbeat stores.
  abbrev pub beat : SessionState → Sessions e → SessionState
  beat state s = record state { last_heartbeat = to_i64 (Ulid.now e.system s.world.host).0 }

  -- What a heartbeat leaves behind: if it reports success, the state of the session is stored with the
  -- time of the heartbeat, the session is as active as it was, and no other key changed.
  pub record Beaten (state : SessionState) (s : Sessions e) (r : Outcome Bool × Sessions e)
      : Type 0 where
    pub done : Bool
    pub after : Sessions e
    pub returns : r ≡ (ok done, after)
    pub ready : Ready e st js g after
    pub unchanged : after.manager ≡ s.manager
    pub stored :
        done ≡ true
        → contents e st js g after (make_session_state_key g s.manager.current_session_id)
          ≡ some (session_state_to_json e.json (beat state s))
    pub answered :
        e.storage.put
          (make_session_state_key g s.manager.current_session_id)
          (session_state_to_json e.json (beat state s))
          s.world.store
        ≡ (ok done, after.world.store)
    pub as_active :
        done ≡ true
        → is_session_active e g s.manager.current_session_id after
          ≡ (ok (is_active state.status), after)
    pub frame :
        done ≡ true
        → (j : Bytes) → j ≢ make_session_state_key g s.manager.current_session_id
        → contents e st js g after j ≡ contents e st js g s j

  module _ (json : Bytes) (state : SessionState) (s : Sessions e) (r : Ready e st js g s)
      (live : is_empty s.manager.current_session_id ≡ false)
      (c : contents e st js g s (make_session_state_key g s.manager.current_session_id) ≡ some json)
      (read : session_state_from_json e.json json ≡ some state) where
    -- Over a ready storage that keeps its contract, a heartbeat of the current session, where its
    -- state can be read, never throws, and returns what the storage answers to its write; if that
    -- is success, the state is stored with the time of the heartbeat and otherwise as it was, the
    -- session is as active as before, and no other key changed.
    pub update_heartbeat_lem : Beaten state s (update_heartbeat e g s)
    update_heartbeat_lem =
        let id = s.manager.current_session_id in
        let key = make_session_state_key g id in
        let wrote =
          st.put_law key (session_state_to_json e.json (beat state s)) s.world.store r.0 in
        let after : Sessions e = record s {
          world = record { store = wrote.after; host = (Ulid.now e.system s.world.host).1 };
        } in
        let found : wrote.done ≡ true
            → contents e st js g after key ≡ some (session_state_to_json e.json (beat state s)) =
          λ d. wrote.holds d key ∙ rw (bytes_eq_refl key) in
        record {
          done = wrote.done;
          after = after;
          returns =
              unfold update_heartbeat update_found parse_state in_world on_store on_host now in
              ground (arith, wrote.returns, st.get_law key s.world.store r.0, read);
          ready = (wrote.ready, r.1);
          unchanged = refl;
          stored = found;
          answered = wrote.returns;
          as_active =
              λ d. active_stored e st js g id (beat state s) after (wrote.ready, r.1) (found d);
          frame = λ d j ne. wrote.holds d j ∙ rw (bytes_eq_ne key j (λ q. ne (sym q)));
        }
