-- ===== src/Calls/Sessions.antt =====
-- The calls of the session manager keep the storage ready and leave no batch of writes open.
use durastash.Prelude.{ℕ, ◌+◌, Option, none, some, List, [], ◌∷◌, Bytes, codes, ℤ, not, ◌||◌}
use durastash.Prelude.Text.{is_empty, contains}
use durastash.Outcome.{M, gets, ◌>>=◌}
use durastash.Outcome.Triples.{Keeps, seq-Keeps, if-Keeps, option-Keeps, wrap-Ends}
use durastash.Storage.Contract.{StorageLaws}
use durastash.Types.{session_state_from_json}
use durastash.Env.{Env, World, on_store, now}
use durastash.SessionManager.{
  SessionManager, Sessions, in_world, set_manager, parse_state, initialize_session, terminate_found,
  terminate_session, get_session_id, update_found, update_heartbeat, cleanup_one, cleanup_loop,
  is_timed_out, cleanup_timeout_sessions, start_heartbeat_thread, heartbeat_round,
}
use durastash.Calls.Worlds.{
  IsIdle, Idles, put-Idles, get-Idles, scan_prefix-Idles, generate-Idles, now-Idles,
}

module _ (e : Env) (st : StorageLaws e.storage) where
  abbrev IsQuiet : Sessions e → Type 0
  IsQuiet s = IsIdle e st s.world

  abbrev pub Quiets : {A : Type 0} → M (Sessions e) A → Type 0
  Quiets m = Keeps IsQuiet m

  in_world-Quiets : {A : Type 0} (m : M (World e) A) → Idles e st m → Quiets (in_world e m)
  unfolding in_world
  in_world-Quiets m h s x =
      wrap-Ends (IsIdle e st) IsQuiet (λ w. record s { world = w }) (λ _. IsIdle e st)
        (λ _. IsQuiet) (λ w y. y) (λ a w y. y) (m s.world) (h s.world x)

  set_manager-Quiets : (m : SessionManager) → Quiets (set_manager e m)
  unfolding set_manager
  set_manager-Quiets m s x = x

  parse_state-Quiets : (json : Bytes) → Quiets (parse_state e json)
  unfolding parse_state
  parse_state-Quiets json =
      option-Keeps IsQuiet (session_state_from_json e.json json) _ _ (λ s x. x) (λ state s x. x)

  put-Quiets : (k v : Bytes) → Quiets (in_world e (on_store e (e.storage.put k v)))
  put-Quiets k v = in_world-Quiets _ (put-Idles e st k v)

  get-Quiets : (k : Bytes) → Quiets (in_world e (on_store e (e.storage.get k)))
  get-Quiets k = in_world-Quiets _ (get-Idles e st k)

  now-Quiets : Quiets (in_world e (now e))
  now-Quiets = in_world-Quiets _ (now-Idles e st)

  -- What a method does after its test of the manager's own fields.
  with_manager :
      {A : Type 0} (k : SessionManager → M (Sessions e) A)
      → ((m : SessionManager) → Quiets (k m))
      → Quiets (gets (λ s. s.manager) >>= k)
  with_manager k h s x = h s.manager s x

  pub initialize_session-Quiets : (g : Bytes) → Quiets (initialize_session e g)
  unfolding initialize_session
  initialize_session-Quiets g = with_manager _ (λ m.
      if-Keeps IsQuiet (not m.storage_set) _ _ (λ s x. x)
        (seq-Keeps IsQuiet _ _ (in_world-Quiets _ (generate-Idles e st)) (λ id.
          seq-Keeps IsQuiet _ _ (set_manager-Quiets _) (λ _.
            seq-Keeps IsQuiet _ _ now-Quiets
              (λ a. seq-Keeps IsQuiet _ _ now-Quiets (λ b. put-Quiets _ _))))))

  terminate_found-Quiets :
      (key : Bytes) (found : Option Bytes) → Quiets (terminate_found e key found)
  unfolding terminate_found
  terminate_found-Quiets key none = λ s x. x
  terminate_found-Quiets key (some json) = seq-Keeps IsQuiet _ _ (parse_state-Quiets json) (λ state.
      seq-Keeps IsQuiet _ _ now-Quiets (λ t. seq-Keeps IsQuiet _ _ (put-Quiets _ _) (λ _ s x. x)))

  pub terminate_session-Quiets : (g : Bytes) → Quiets (terminate_session e g)
  unfolding terminate_session
  terminate_session-Quiets g = with_manager _ (λ m.
      if-Keeps IsQuiet (is_empty m.current_session_id || not m.storage_set) _ _ (λ s x. x)
        (seq-Keeps IsQuiet _ _ (get-Quiets _) (λ found.
          seq-Keeps IsQuiet _ _ (terminate_found-Quiets _ found) (λ _. set_manager-Quiets _))))

  pub get_session_id-Quiets : Quiets (get_session_id e)
  unfolding get_session_id
  get_session_id-Quiets s x = x

  update_found-Quiets : (key : Bytes) (found : Option Bytes) → Quiets (update_found e key found)
  unfolding update_found
  update_found-Quiets key none = λ s x. x
  update_found-Quiets key (some json) =
      seq-Keeps IsQuiet _ _ (parse_state-Quiets json)
        (λ state. seq-Keeps IsQuiet _ _ now-Quiets (λ t. put-Quiets _ _))

  update_heartbeat-Quiets : (g : Bytes) → Quiets (update_heartbeat e g)
  unfolding update_heartbeat
  update_heartbeat-Quiets g = with_manager _ (λ m.
      if-Keeps IsQuiet (is_empty m.current_session_id || not m.storage_set) _ _ (λ s x. x)
        (seq-Keeps IsQuiet _ _ (get-Quiets _) (update_found-Quiets _)))

  cleanup_one-Quiets :
      (current_time timeout_ms : ℤ) (key value : Bytes)
      → Quiets (cleanup_one e current_time timeout_ms key value)
  unfolding cleanup_one
  cleanup_one-Quiets current_time timeout_ms key value =
      if-Keeps IsQuiet (not (contains (codes ":state") key)) _ _ (λ s x. x)
        (seq-Keeps IsQuiet _ _ (parse_state-Quiets value) (λ state.
          if-Keeps IsQuiet (is_timed_out current_time timeout_ms state) _ _
            (seq-Keeps IsQuiet _ _ (put-Quiets _ _) (λ _ s x. x)) (λ s x. x)))

  cleanup_loop-Quiets :
      (current_time timeout_ms : ℤ) (n : ℕ) (l : List (Bytes × Bytes))
      → Quiets (cleanup_loop e current_time timeout_ms n l)
  unfolding cleanup_loop
  cleanup_loop-Quiets current_time timeout_ms n [] = λ s x. x
  cleanup_loop-Quiets current_time timeout_ms n ((key, value) ∷ l) =
      seq-Keeps IsQuiet _ _ (cleanup_one-Quiets current_time timeout_ms key value)
        (λ more. cleanup_loop-Quiets current_time timeout_ms (n + more) l)

  pub cleanup_timeout_sessions-Quiets :
      (g : Bytes) (timeout : ℤ) → Quiets (cleanup_timeout_sessions e g timeout)
  unfolding cleanup_timeout_sessions
  cleanup_timeout_sessions-Quiets g timeout = with_manager _ (λ m.
      if-Keeps IsQuiet (not m.storage_set) _ _ (λ s x. x)
        (seq-Keeps IsQuiet _ _ (in_world-Quiets _ (scan_prefix-Idles e st _)) (λ found.
          seq-Keeps IsQuiet _ _ now-Quiets (λ t. cleanup_loop-Quiets _ timeout 0 found.1))))

  pub start_heartbeat_thread-Quiets : (ms : ℤ) → Quiets (start_heartbeat_thread e ms)
  unfolding start_heartbeat_thread
  start_heartbeat_thread-Quiets ms =
      with_manager _
        (λ m. if-Keeps IsQuiet m.heartbeat_running _ _ (λ s x. x) (set_manager-Quiets _))

  pub heartbeat_round-Quiets : Quiets (heartbeat_round e)
  unfolding heartbeat_round
  heartbeat_round-Quiets = with_manager _ (λ m.
      if-Keeps IsQuiet (not m.heartbeat_running) _ _ (λ s x. x)
        (if-Keeps IsQuiet (is_empty m.current_group_key) _ _ (λ s x. x)
          (seq-Keeps IsQuiet _ _ (update_heartbeat-Quiets _) (λ _ s x. x))))
