-- ===== src/GroupStorage/Shutdowns.antt =====
-- How `Shutdown` and the destructors end: the sessions, the heartbeat and the storage.
use durastash.Prelude.{
  ◌≡◌, refl, ap, sym, ◌∙◌, arith, Bool, true, false, Bool-cases, Option-cases, not, ◌||◌, none,
  some, List, [], ◌∷◌, Bytes, inl, inr, if◌then◌else◌,
}
use durastash.Prelude.Text.{is_empty}
use durastash.Errors.{json_error}
use durastash.Contents.{Elem}
use durastash.Outcome.{ok, throw}
use durastash.Storage.Contract.{StorageLaws}
use durastash.Types.{SessionState, terminated, session_state_to_json, session_state_from_json}
use durastash.Env.{Env, on_store, on_host, now}
use durastash.Prelude.Int.{to_i64}
use durastash.Ulid
use durastash.SessionManager
use durastash.SessionManager.{
  SessionManager, Sessions, make_session_state_key, set_manager, parse_state, terminate_found,
  terminate_session, stop_heartbeat_thread,
}
use durastash.GroupStorage.State.{GroupState, with_lock, release, in_sessions, in_world}
use durastash.GroupStorage.Lifecycle.{terminate_all, shutdown, destroy}
use durastash.Calls.Worlds.{IsIdle}

module _ (e : Env) (st : StorageLaws e.storage) where
  -- What is stored as the state of the current session, for a group, can be read.
  abbrev pub CanEnd : Bytes → Sessions e → Type 0
  CanEnd g s =
      (json : Bytes)
      → st.contents s.world.store (make_session_state_key g s.manager.current_session_id)
        ≡ some json
      → (state : SessionState) × (session_state_from_json e.json json ≡ some state)

  -- There is no session to end.
  abbrev pub has_none : SessionManager → Bool
  has_none m = is_empty m.current_session_id || not m.storage_set

  pub terminate_nothing :
      (g : Bytes) (s : Sessions e)
      → has_none s.manager ≡ true
      → terminate_session e g s ≡ (ok tt, s)
  unfolding terminate_session
  terminate_nothing g s h = ground arith

  pub terminate_current :
      (g : Bytes) (s : Sessions e)
      → IsIdle e st s.world
      → has_none s.manager ≡ false
      → CanEnd g s
      → (u : Sessions e) × (terminate_session e g s ≡ (ok tt, u))
        × IsIdle e st u.world
        × (has_none u.manager ≡ true)
        × (u.manager.storage_set ≡ s.manager.storage_set)
  unfolding terminate_session terminate_found parse_state set_manager SessionManager.in_world
      on_store on_host now is_empty
  terminate_current g s (r, idle) h can =
      let key = make_session_state_key g s.manager.current_session_id in
      let forgot : SessionManager = record s.manager {
        current_session_id = [];
        current_group_key = [];
      } in
      let get = st.get_law key s.world.store r in
      elim (Option-cases (st.contents s.world.store key)) [
        | inl absent ↦
            (record s { manager = forgot }, ground (arith, get, absent), (r, idle), refl, refl)
        | inr (json, there) ↦
            let (state, read) = can json there in
            let t = Ulid.now e.system s.world.host in
            let wrote =
              st.put_law key
                (session_state_to_json e.json
                  (record state { status = terminated; last_heartbeat = to_i64 t.0 }))
                s.world.store r in
            let ran = wrote.returns in
            (
              record { world = record { store = wrote.after; host = t.1 }; manager = forgot },
              ground (arith, get, there, read, ran),
              (wrote.ready, wrote.batch ∙ idle),
              refl,
              refl,
            )
      ]

  -- With no session to end, nothing is done for any group.
  terminate_rest :
      (groups : List (Bytes × Bytes)) (s : GroupState e)
      → has_none s.sessions.manager ≡ true
      → terminate_all e groups s ≡ (ok tt, s)
  unfolding terminate_all in_sessions
  terminate_rest [] s h = refl
  terminate_rest ((g, sid) ∷ rest) s h =
      ground (arith, terminate_nothing g s.sessions h, terminate_rest rest s h)

  terminate_groups :
      (groups : List (Bytes × Bytes)) (s : GroupState e)
      → IsIdle e st s.sessions.world
      → ((g sid : Bytes) → Elem (g, sid) groups → CanEnd g s.sessions)
      → (u : Sessions e) × (terminate_all e groups s ≡ (ok tt, record s { sessions = u }))
        × IsIdle e st u.world
  unfolding terminate_all in_sessions
  terminate_groups [] s idle can = (s.sessions, refl, idle)
  terminate_groups ((g, sid) ∷ rest) s idle can = elim (Bool-cases (has_none s.sessions.manager)) [
    | inl h ↦ (s.sessions, terminate_rest ((g, sid) ∷ rest) s h, idle)
    | inr h ↦
        let (u, run, idle', none_left, set) =
          terminate_current g s.sessions idle h (can g sid (inl refl)) in
        (u, ground (arith, run, terminate_rest rest (record s { sessions = u }) none_left), idle')
  ]

  -- What is left when everything has been shut down.
  pub record ShutDown (s : GroupState e) : Type 0 where
    pub closed : st.Closed s.sessions.world.store
    pub stopped : s.sessions.manager.heartbeat_running ≡ false
    pub no_sessions : s.group_sessions ≡ []
    pub no_counters : s.group_sequence_counters ≡ []
    pub free : s.locked ≡ false

  -- The manager with its thread stopped.
  abbrev stopped : SessionManager → SessionManager
  stopped m =
      if not m.heartbeat_running
      then m
      else record m { heartbeat_running = false; thread_joinable = false }

  stop_runs :
      (s : Sessions e)
      → stop_heartbeat_thread e s ≡ (ok tt, record s { manager = stopped s.manager })
  unfolding stop_heartbeat_thread set_manager
  stop_runs s = ground arith

  is_stopped : (m : SessionManager) → (stopped m).heartbeat_running ≡ false
  is_stopped m = ground arith

  -- Where the states of the current session can be read, `Shutdown` returns, with everything shut down.
  pub shutdown_lem :
      (s : GroupState e)
      → IsIdle e st s.sessions.world
      → s.locked ≡ false
      → ((g sid : Bytes) → Elem (g, sid) s.group_sessions → CanEnd g s.sessions)
      → (u : GroupState e) × (shutdown e s ≡ (ok tt, u)) × ShutDown u
  unfolding shutdown with_lock release in_sessions in_world on_store
  shutdown_lem s idle free can =
      let (u, run, (r, b)) =
        terminate_groups s.group_sessions (record s { locked = true }) idle can in
      let (store, closes, closed) = st.shutdown_law u.world.store r b in
      let stop = stop_runs u in
      (
        record s {
          sessions = record {
            world = record u.world { store = store };
            manager = stopped u.manager;
          };
          locked = false;
          group_sessions = [];
          group_sequence_counters = [];
        },
        ground (arith, free, run, stop, closes),
        record {
          closed = closed;
          stopped = is_stopped u.manager;
          no_sessions = refl;
          no_counters = refl;
          free = refl;
        },
      )

  -- The destructor ends as `Shutdown` does.
  pub destroy_lem :
      (s : GroupState e)
      → IsIdle e st s.sessions.world
      → s.locked ≡ false
      → ((g sid : Bytes) → Elem (g, sid) s.group_sessions → CanEnd g s.sessions)
      → (u : GroupState e) × (destroy e s ≡ (ok tt, u)) × ShutDown u
  unfolding destroy SessionManager.destroy in_sessions in_world on_store
  destroy_lem s idle free can =
      let (u, run, down) = shutdown_lem s idle free can in
      let stop = stop_runs u.sessions in
      let (store, closes, closed) = st.destroy_law u.sessions.world.store down.closed in
      (
        record u {
          sessions = record {
            world = record u.sessions.world { store = store };
            manager = stopped u.sessions.manager;
          };
        },
        ground (arith, run, stop, closes),
        record {
          closed = closed;
          stopped = is_stopped u.sessions.manager;
          no_sessions = down.no_sessions;
          no_counters = down.no_counters;
          free = down.free;
        },
      )

  -- Over a ready storage that keeps its contract, with the mutex free and the session manager
  -- connected, where there is a current session and its state for the first of the groups cannot
  -- be read, the destructor of GroupStorage lets the exception out, and nothing has been shut
  -- down.
  pub destroy_throws :
      (g sid json : Bytes) (rest : List (Bytes × Bytes)) (s : GroupState e)
      → st.Ready s.sessions.world.store
      → s.locked ≡ false
      → s.sessions.manager.storage_set ≡ true
      → is_empty s.sessions.manager.current_session_id ≡ false
      → s.group_sessions ≡ (g, sid) ∷ rest
      → st.contents s.sessions.world.store
          (make_session_state_key g s.sessions.manager.current_session_id)
        ≡ some json
      → session_state_from_json e.json json ≡ none
      → destroy e s ≡ (throw json_error, s)
  unfolding destroy shutdown with_lock release terminate_all in_sessions terminate_session
      terminate_found parse_state SessionManager.in_world on_store
  destroy_throws g sid json rest s r free set live first there broken =
      let get =
        st.get_law (make_session_state_key g s.sessions.manager.current_session_id)
          s.sessions.world.store r in
      let same : record s { locked = false } ≡ s =
        ap (λ (b : Bool). record s { locked = b }) (sym free) in
      ground (arith, get, same)
