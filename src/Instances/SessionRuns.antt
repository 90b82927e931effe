-- ===== src/Instances/SessionRuns.antt =====
-- The theorems on sessions, over a database in memory.
use durastash.Prelude.{
  Bytes, Bool-cases, inl, inr, some, ap, sym, ◌∙◌, ◌++◌, arith, ◌≡◌, refl, true, false, [], ◌∷◌,
  codes, pos,
}
use durastash.Prelude.Text.{starts_with, contains, bytes_eq, is_empty}
use durastash.Maps.{find}
use durastash.Outcome.{ok}
use durastash.Types.{active, SessionState, session_state_to_json}
use durastash.SessionManager.{
  Sessions, make_session_state_key, initialize_session, terminate_session, cleanup_timeout_sessions,
}
use durastash.SessionManager.{update_heartbeat}
use durastash.SessionManager.Cleanup.{Cleaned, cleanup_timeout_sessions_lem}
use durastash.Types.{session_state_from_json}
use durastash.Types.RoundTrip.{session_state_round_trip}
use durastash.SessionManager.Heartbeat.{Beaten, update_heartbeat_lem}
use durastash.SessionManager.Active.{
  Started, initialize_session_lem, Ended, terminate_session_lem, terminate_other_group,
}
use durastash.Instances.Objects.{plain_objects, plain_objects_laws}
use durastash.Instances.Memory.{memory_env, laws, writes, world, group, session}

abbrev state : SessionState
state = record {
  session_id = session;
  process_id = pos 1;
  started_at = pos 7;
  last_heartbeat = pos 8;
  status = active;
}

abbrev fresh : Sessions memory_env
fresh = record {
  world = world [];
  manager = record {
    storage_set = true;
    current_session_id = [];
    current_group_key = [];
    heartbeat_running = false;
    heartbeat_interval_ms = pos 5000;
    thread_joinable = false;
  };
}

abbrev running : Sessions memory_env
running = record {
  world =
      world
        ((make_session_state_key group session, session_state_to_json plain_objects state) ∷ []);
  manager = record fresh.manager { current_session_id = session; current_group_key = group };
}

initialize_session_lem_example :
    Started memory_env laws plain_objects_laws group fresh
      (initialize_session memory_env group fresh)
initialize_session_lem_example =
    initialize_session_lem memory_env laws plain_objects_laws group fresh ((refl, refl), refl)

terminate_session_lem_example :
    Ended memory_env laws plain_objects_laws group state running
      (terminate_session memory_env group running)
unfolding find make_session_state_key bytes_eq is_empty
terminate_session_lem_example =
    terminate_session_lem memory_env laws plain_objects_laws group
      (session_state_to_json plain_objects state) state running ((refl, refl), refl) refl refl
      (session_state_round_trip plain_objects plain_objects_laws state)

terminate_other_group_example : terminate_session memory_env (codes "h") running ≡ (
  ok tt,
  record running {
    manager = record running.manager { current_session_id = []; current_group_key = [] };
  },
)
unfolding find make_session_state_key bytes_eq is_empty
terminate_other_group_example =
    terminate_other_group memory_env laws plain_objects_laws (codes "h") running
      ((refl, refl), refl) refl refl

update_heartbeat_lem_example :
    Beaten memory_env laws plain_objects_laws group state running
      (update_heartbeat memory_env group running)
unfolding find make_session_state_key bytes_eq is_empty
update_heartbeat_lem_example =
    update_heartbeat_lem memory_env laws plain_objects_laws group
      (session_state_to_json plain_objects state) state running ((refl, refl), refl) refl refl
      (session_state_round_trip plain_objects plain_objects_laws state)

-- The only entry is the state of the session.
readable :
    (k v : Bytes)
    → starts_with (group ++ codes ":") k ≡ true
    → laws.contents running.world.store k ≡ some v
    → contains (codes ":state") k ≡ true
    → (t : SessionState) × (session_state_from_json plain_objects v ≡ some t)
unfolding find
readable k v starts there named =
    elim (Bool-cases (bytes_eq (make_session_state_key group session) k)) [
      | inl same ↦
          let json : session_state_to_json plain_objects state ≡ v = ground (arith, there, same) in
          (
            state,
            sym (ap (session_state_from_json plain_objects) json)
                ∙ session_state_round_trip plain_objects plain_objects_laws state,
          )
      | inr other ↦ absurd (ground (arith, there, other))
    ]

-- The same at a time when the session has been silent for longer than the timeout of 5.
abbrev late : Sessions memory_env
late = record running { world = record running.world { host = 100 } }

cleanup_timeout_sessions_lem_example :
    Cleaned memory_env laws group
      (pos 5)
      late
      (cleanup_timeout_sessions memory_env group (pos 5) late)
cleanup_timeout_sessions_lem_example =
    cleanup_timeout_sessions_lem memory_env laws group (pos 5) late (refl, refl) refl writes
      readable
