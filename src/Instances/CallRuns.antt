-- ===== src/Instances/CallRuns.antt =====
-- Calls in turn, over a database in memory.
use durastash.Prelude.{
  ◌-◌, ◌≡◌, sym, ap, ◌∙◌, inl, inr, some, ◌∷◌, Bytes, ◌≢◌, refl, arith, true, false, [], codes,
}
use durastash.Prelude.Text.{is_empty, bytes_eq}
use durastash.Prelude.Int.{i64_limit, pos_part}
use durastash.Maps.{find, assign}
use durastash.Outcome.{ok, throw, deadlock, trap}
use durastash.Env.{on_store, generate, now}
use durastash.RocksDbStorage
use durastash.SessionManager
use durastash.SessionManager.{
  set_manager, in_world, new_session_manager, get_session_id, make_session_state_key,
  start_heartbeat_thread,
}
use durastash.GroupStorage.State.{GroupState, with_lock, in_sessions}
use durastash.GroupStorage.Lifecycle.{initialize_session, register_session, destroy}
use durastash.Contents.{Elem}
use durastash.Errors.{json_error}
use durastash.Ulid
use durastash.Types.{SessionState, session_state_to_json, session_state_from_json}
use durastash.Types.RoundTrip.{session_state_round_trip}
use durastash.GroupStorage.Shutdowns.{CanEnd, ShutDown, destroy_throws}
use durastash.Calls.Closing.{destroy-Reaches}
use durastash.Instances.Objects
use durastash.Instances.Objects.{plain_objects, plain_objects_laws}
use durastash.Calls.Steps.{
  save_call, initialize_session_call, perform, IsAllowed, Reaches, start, step, IsFree,
  Reaches-IsFree,
}
use durastash.Calls.Bounded.{IsBelow, every_call_returns}
use durastash.GroupStorage.Counters.{given}
use durastash.Instances.Memory.{memory_env, laws, world, bm, group, session}

abbrev fresh : GroupState memory_env
fresh = record {
  sessions = record { world = world []; manager = new_session_manager true };
  db_path = codes "/db";
  batches = bm;
  locked = false;
  group_sequence_counters = [];
  group_sessions = [];
  group_current_batch_ids = [];
  default_batch_size = 100;
}

-- The group has a session.
abbrev begun : GroupState memory_env
begun = (perform memory_env (initialize_session_call group) fresh).1

begun-Reaches : Reaches memory_env fresh begun
unfolding IsAllowed
begun-Reaches = step (initialize_session_call group) start tt refl

known : IsAllowed memory_env (save_call group (codes "v")) begun
unfolding perform IsAllowed find bytes_eq assign initialize_session with_lock in_sessions
    SessionManager.initialize_session new_session_manager in_world generate set_manager now on_store
    RocksDbStorage.put register_session get_session_id start_heartbeat_thread
known = (_, refl)

-- Its number is 0.
below : IsBelow memory_env laws (save_call group (codes "v")) begun
unfolding perform IsBelow given find bytes_eq assign initialize_session with_lock in_sessions
    SessionManager.initialize_session new_session_manager in_world generate set_manager now on_store
    RocksDbStorage.put register_session get_session_id start_heartbeat_thread
below p = let same : 0 ≡ i64_limit - 1 = ap pos_part p in absurd (omega (arith, same))

every_call_returns_example :
    ((perform memory_env (save_call group (codes "v")) begun).0 ≢ deadlock)
    × ((perform memory_env (save_call group (codes "v")) begun).0 ≢ trap)
    × IsFree memory_env laws (perform memory_env (save_call group (codes "v")) begun).1
every_call_returns_example =
    every_call_returns memory_env laws fresh begun (save_call group (codes "v"))
      ((((refl, refl), refl), omega arith), refl) begun-Reaches known below

Reaches-IsFree_example :
    IsFree memory_env laws (perform memory_env (save_call group (codes "v")) begun).1
Reaches-IsFree_example =
    Reaches-IsFree memory_env laws fresh (perform memory_env (save_call group (codes "v")) begun).1
      ((((refl, refl), refl), omega arith), refl)
      (step (save_call group (codes "v")) begun-Reaches known refl)

-- The state of the session that was stored can be read.
stored :
    (state : SessionState) × (laws.contents begun.sessions.world.store
        (make_session_state_key group begun.sessions.manager.current_session_id)
      ≡ some (session_state_to_json plain_objects state))
unfolding perform IsAllowed find bytes_eq assign initialize_session with_lock in_sessions
    SessionManager.initialize_session new_session_manager in_world generate set_manager now on_store
    RocksDbStorage.put register_session get_session_id start_heartbeat_thread Ulid.generate
    Ulid.generate_at Ulid.encode_timestamp Ulid.encoding_char Ulid.now Ulid.encode_random
    Ulid.encode_part_loop Ulid.random_part_loop make_session_state_key
stored = (_, refl)

only_group : (g sid : Bytes) → Elem (g, sid) begun.group_sessions → g ≡ group
unfolding perform assign initialize_session with_lock in_sessions SessionManager.initialize_session
    new_session_manager in_world generate set_manager now on_store RocksDbStorage.put
    register_session get_session_id start_heartbeat_thread
only_group g sid (inl p) = ap (λ (t : Bytes × Bytes). t.0) p
only_group g sid (inr x) = elim x [ ]

readable :
    (g sid : Bytes) → Elem (g, sid) begun.group_sessions → CanEnd memory_env laws g begun.sessions
readable g sid x json h =
    let (state, there) = stored in
    let same : session_state_to_json plain_objects state ≡ json =
      cc (there, h, only_group g sid x) in
    (
      state,
      sym (ap (session_state_from_json plain_objects) same)
          ∙ session_state_round_trip plain_objects plain_objects_laws state,
    )

destroy-Reaches_example :
    (u : GroupState memory_env) × (destroy memory_env begun ≡ (ok tt, u))
    × ShutDown memory_env laws u
destroy-Reaches_example =
    destroy-Reaches memory_env laws fresh begun ((((refl, refl), refl), omega arith), refl)
      begun-Reaches readable

-- The same with a state that cannot be read.
abbrev broken : GroupState memory_env
broken = record fresh {
  sessions = record {
    world = world ((make_session_state_key group session, []) ∷ []);
    manager = record (new_session_manager true) {
      current_session_id = session;
      current_group_key = group;
    };
  };
  group_sessions = (group, session) ∷ [];
}

destroy_throws_example : destroy memory_env broken ≡ (throw json_error, broken)
unfolding session_state_from_json Objects.parse_fields
destroy_throws_example =
    destroy_throws memory_env laws group session [] [] broken (refl, refl) refl
      (unfold new_session_manager in refl) (unfold is_empty in refl) refl
      (unfold find bytes_eq make_session_state_key in refl) (refl)
