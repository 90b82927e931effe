-- ===== src/SessionManager.antt =====
-- include/durastash/session_manager.h and src/session_manager.cpp: the session of the process. One
-- manager keeps one current session. No method locks the manager's mutex while it holds it.
pub mod Active
pub mod Heartbeat
pub mod Cleanup
use durastash.Prelude.{
  ℕ, ◌+◌, Bool, true, false, not, ◌&&◌, ◌||◌, Option, none, some, List, [], ◌∷◌, ◌++◌, Bytes, codes,
  ℤ, pos, if◌then◌else◌,
}
use durastash.Prelude.Text.{is_empty, contains}
use durastash.Prelude.Int.{ltb_ℤ, to_i64, sub_i64}
use durastash.Errors.{json_error}
use durastash.Outcome.{Outcome, M, pure, raise, gets, ok, ◌>>=◌, ◌>>◌}
use durastash.Types.{
  SessionStatus, active, terminated, SessionState, session_state_to_json, session_state_from_json,
}
use durastash.Env.{Env, World, on_store, generate, now}

pub record SessionManager : Type 0 where
  -- `storage_ != nullptr`
  pub storage_set : Bool
  pub current_session_id : Bytes
  pub current_group_key : Bytes
  pub heartbeat_running : Bool
  pub heartbeat_interval_ms : ℤ
  -- `heartbeat_thread_.joinable()`
  pub thread_joinable : Bool

-- The manager beside what it changes.
pub record Sessions (e : Env) : Type 0 where
  pub world : World e
  pub manager : SessionManager

-- `SessionManager(storage)`
unfoldable pub new_session_manager : Bool → SessionManager
new_session_manager storage_set = record {
  storage_set = storage_set;
  current_session_id = [];
  current_group_key = [];
  heartbeat_running = false;
  heartbeat_interval_ms = pos 5000;
  thread_joinable = false;
}

unfoldable pub make_session_state_key : Bytes → Bytes → Bytes
make_session_state_key group_key session_id =
    group_key ++ (codes ":" ++ (session_id ++ codes ":state"))

unfoldable pub make_session_lock_key : Bytes → Bytes → Bytes
make_session_lock_key group_key session_id =
    group_key ++ (codes ":" ++ (session_id ++ codes ":lock"))

unfoldable pub is_active : SessionStatus → Bool
is_active active = true
is_active terminated = false

-- The timeout test of `CleanupTimeoutSessions`.
unfoldable pub is_timed_out : ℤ → ℤ → SessionState → Bool
is_timed_out current_time timeout_ms state =
    is_active state.status && ltb_ℤ timeout_ms (sub_i64 current_time state.last_heartbeat)

module _ (e : Env) where
  -- A step of the storage or the host, beside the manager.
  unfoldable pub in_world : {A : Type 0} → M (World e) A → M (Sessions e) A
  in_world m s = let (r, w) = m s.world in (r, record s { world = w })

  unfoldable pub set_manager : SessionManager → M (Sessions e) (Unit {0})
  set_manager m s = (ok tt, record s { manager = m })

  abbrev store_put : Bytes → Bytes → M (Sessions e) Bool
  store_put k v = in_world (on_store e (e.storage.put k v))

  abbrev store_get : Bytes → M (Sessions e) (Option Bytes)
  store_get k = in_world (on_store e (e.storage.get k))

  -- `state.fromJson(json)`
  unfoldable pub parse_state : Bytes → M (Sessions e) SessionState
  parse_state json = elim (session_state_from_json e.json json) [
    | none ↦ raise json_error
    | some state ↦ pure state
  ]

  unfoldable pub initialize_session : Bytes → M (Sessions e) Bool
  initialize_session group_key = do
    m ← gets (λ s. s.manager)
    if not m.storage_set then pure false else do
      session_id ← in_world (generate e)
      set_manager (record m { current_session_id = session_id; current_group_key = group_key })
      started ← in_world (now e)
      heartbeat ← in_world (now e)
      let state : SessionState = record {
        session_id = session_id;
        process_id = e.system.process_id;
        started_at = to_i64 started;
        last_heartbeat = to_i64 heartbeat;
        status = active;
      }
      store_put (make_session_state_key group_key session_id) (session_state_to_json e.json state)

  -- The block of `TerminateSession` for a state that was found; the result of `Put` is not used.
  unfoldable pub terminate_found : Bytes → Option Bytes → M (Sessions e) (Unit {0})
  terminate_found key none = pure tt
  terminate_found key (some json) = do
    state ← parse_state json
    t ← in_world (now e)
    store_put key (
        session_state_to_json e.json
          (record state { status = terminated; last_heartbeat = to_i64 t }))
    pure tt

  unfoldable pub terminate_session : Bytes → M (Sessions e) (Unit {0})
  terminate_session group_key = do
    m ← gets (λ s. s.manager)
    if is_empty m.current_session_id || not m.storage_set then pure tt else do
      let key = make_session_state_key group_key m.current_session_id
      found ← store_get key
      terminate_found key found
      set_manager (record m { current_session_id = []; current_group_key = [] })

  unfoldable pub get_session_id : M (Sessions e) Bytes
  get_session_id = gets (λ s. s.manager.current_session_id)

  unfoldable pub update_found : Bytes → Option Bytes → M (Sessions e) Bool
  update_found key none = pure false
  update_found key (some json) = do
    state ← parse_state json
    t ← in_world (now e)
    store_put key (session_state_to_json e.json (record state { last_heartbeat = to_i64 t }))

  unfoldable pub update_heartbeat : Bytes → M (Sessions e) Bool
  update_heartbeat group_key = do
    m ← gets (λ s. s.manager)
    if is_empty m.current_session_id || not m.storage_set then pure false else do
      let key = make_session_state_key group_key m.current_session_id
      found ← store_get key
      update_found key found

  unfoldable pub active_found : Option Bytes → M (Sessions e) Bool
  active_found none = pure false
  active_found (some json) = do state ← parse_state json; pure (is_active state.status)

  unfoldable pub is_session_active : Bytes → Bytes → M (Sessions e) Bool
  is_session_active group_key session_id = do
    m ← gets (λ s. s.manager)
    if not m.storage_set
        then pure false
        else do found ← store_get (make_session_state_key group_key session_id); active_found found

  -- One round of the cleanup loop: how many sessions it ends. The result of `Put` is not used.
  unfoldable pub cleanup_one : ℤ → ℤ → Bytes → Bytes → M (Sessions e) ℕ
  cleanup_one current_time timeout_ms key value =
      if not (contains (codes ":state") key) then pure 0 else do
        state ← parse_state value
        if is_timed_out current_time timeout_ms state
            then (do
              store_put key (
                  session_state_to_json e.json
                    (record state { status = terminated; last_heartbeat = current_time }))
              pure 1)
            else pure 0

  unfoldable pub cleanup_loop : ℤ → ℤ → ℕ → List (Bytes × Bytes) → M (Sessions e) ℕ
  cleanup_loop current_time timeout_ms cleaned [] = pure cleaned
  cleanup_loop current_time timeout_ms cleaned ((key, value) ∷ rest) = do
    n ← cleanup_one current_time timeout_ms key value
    cleanup_loop current_time timeout_ms (cleaned + n) rest

  unfoldable pub cleanup_timeout_sessions : Bytes → ℤ → M (Sessions e) ℕ
  cleanup_timeout_sessions group_key timeout_ms = do
    m ← gets (λ s. s.manager)
    if not m.storage_set then pure 0 else do
      found ← in_world (on_store e (e.storage.scan_prefix (group_key ++ codes ":")))
      t ← in_world (now e)
      cleanup_loop (to_i64 t) timeout_ms 0 found.1

  -- The thread itself runs `heartbeat_round` from time to time, while it is joinable.
  unfoldable pub start_heartbeat_thread : ℤ → M (Sessions e) (Unit {0})
  start_heartbeat_thread interval_ms = do
    m ← gets (λ s. s.manager)
    if m.heartbeat_running
        then pure tt
        else set_manager (record m {
          heartbeat_interval_ms = interval_ms;
          heartbeat_running = true;
          thread_joinable = true;
        })

  unfoldable pub stop_heartbeat_thread : M (Sessions e) (Unit {0})
  stop_heartbeat_thread = do
    m ← gets (λ s. s.manager)
    if not m.heartbeat_running
        then pure tt
        else set_manager (record m { heartbeat_running = false; thread_joinable = false })

  -- `~SessionManager()`
  unfoldable pub destroy : M (Sessions e) (Unit {0})
  destroy = stop_heartbeat_thread

  -- What `HeartbeatWorker` does after a sleep: whether the loop goes on. An exception leaves the
  -- thread function in C++, which ends the process.
  unfoldable pub heartbeat_round : M (Sessions e) Bool
  heartbeat_round = do
    m ← gets (λ s. s.manager)
    if not m.heartbeat_running
        then pure false
        else if is_empty m.current_group_key
        then pure true
        else do update_heartbeat m.current_group_key; pure true
