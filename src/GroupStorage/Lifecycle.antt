-- ===== src/GroupStorage/Lifecycle.antt =====
-- `Initialize`, `Shutdown` and the sessions of the groups, of src/group_storage.cpp.
use durastash.Prelude.{Bool, true, false, List, [], ◌∷◌, Bytes, pos}
use durastash.Outcome.{ok, M, pure, gets, ◌>>=◌, ◌>>◌}
use durastash.Env.{Env, on_store}
use durastash.SessionManager
use durastash.SessionManager.{SessionManager, Sessions, new_session_manager}
use durastash.Maps.{find, assign, erase}
use durastash.GroupStorage.State.{GroupState, with_lock, in_sessions, in_world, session_or_empty}

module _ (e : Env) where
  unfoldable pub initialize : M (GroupState e) Bool
  initialize =
      with_lock (do path ← gets (λ s. s.db_path); in_world (on_store e (e.storage.initialize path)))

  unfoldable pub terminate_all : List (Bytes × Bytes) → M (GroupState e) (Unit {0})
  terminate_all [] = pure tt
  terminate_all ((group_key, session_id) ∷ rest) = do
    in_sessions (SessionManager.terminate_session e group_key)
    terminate_all rest

  unfoldable pub shutdown : M (GroupState e) (Unit {0})
  shutdown = with_lock (do
    groups ← gets (λ s. s.group_sessions)
    terminate_all groups
    in_sessions (SessionManager.stop_heartbeat_thread e)
    in_world (on_store e e.storage.shutdown)
    λ s. (ok tt, record s { group_sessions = []; group_sequence_counters = [] }))

  -- `~GroupStorage()`, and the destructors of its members, the last of them first. An exception here
  -- ends the process.
  unfoldable pub destroy : M (GroupState e) (Unit {0})
  destroy = do
    shutdown
    in_sessions (SessionManager.destroy e)
    in_world (on_store e e.storage.destroy)

  -- What `InitializeSession` does after the session manager has answered.
  unfoldable pub register_session : Bytes → Bool → M (GroupState e) Bool
  register_session group_key false = pure false
  register_session group_key true = do
    session_id ← in_sessions (SessionManager.get_session_id e)
    λ s. (ok tt, record s { group_sessions = assign group_key session_id s.group_sessions })
    in_sessions (SessionManager.start_heartbeat_thread e (pos 5000))
    pure true

  unfoldable pub initialize_session : Bytes → M (GroupState e) Bool
  initialize_session group_key = with_lock (do
    done ← in_sessions (SessionManager.initialize_session e group_key)
    register_session group_key done)

  unfoldable pub terminate_session : Bytes → M (GroupState e) (Unit {0})
  terminate_session group_key = with_lock (do
    in_sessions (SessionManager.terminate_session e group_key)
    λ s. (
      ok tt,
      record s {
        group_sessions = erase group_key s.group_sessions;
        group_sequence_counters = erase group_key s.group_sequence_counters;
      },
    ))

  unfoldable pub get_session_id : Bytes → M (GroupState e) Bytes
  get_session_id group_key =
      with_lock (gets (λ s. session_or_empty (find group_key s.group_sessions)))
