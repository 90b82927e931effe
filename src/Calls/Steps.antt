-- ===== src/Calls/Steps.antt =====
-- The public methods of `GroupStorage` between `Initialize` and `Shutdown`, called one after the other,
-- with rounds of the heartbeat thread and cleanups of the session manager between the calls.
use durastash.Prelude.{ℕ, ◌<◌, ◌≡◌, refl, true, false, some, List, Bytes, ℤ}
use durastash.Outcome.{Outcome, ok, throw, deadlock, trap, M, pure, ◌>>◌}
use durastash.Outcome.Triples.{Ends, seq-Keeps, continue-Ends, wrap-Ends}
use durastash.Storage.Contract.{StorageLaws}
use durastash.Maps.{find}
use durastash.Env.{Env}
use durastash.SessionManager
use durastash.SessionManager.{Sessions}
use durastash.GroupStorage.State.{GroupState, with_lock, release, in_sessions, set_batch_size}
use durastash.GroupStorage.Lifecycle.{initialize_session, terminate_session, get_session_id}
use durastash.GroupStorage.Saving.{session_or_create, get_or_create_session, save}
use durastash.GroupStorage.Loading.{load, load_batch, acknowledge_batch}
use durastash.GroupStorage.Resaving.{resave_batch}
use durastash.Calls.Worlds.{IsIdle}
use durastash.Calls.Sessions.{
  Quiets, initialize_session-Quiets, terminate_session-Quiets, heartbeat_round-Quiets,
  cleanup_timeout_sessions-Quiets,
}
use durastash.Calls.Groups.{IsSound, in_sessions-Sounds}
use durastash.Calls.Loads.{
  load_session-Sounds, load_batch_session-Sounds, acknowledge_session-Sounds,
}
use durastash.Calls.Saves.{save_in-Sounds, resave_session-Sounds, register_session-Sounds}

pub data Call : Type 0 where
  save_call : (group_key value : Bytes) → Call
  load_call : (group_key : Bytes) → Call
  load_batch_call : (group_key : Bytes) (batch_size : ℕ) → Call
  acknowledge_call : (group_key batch_id : Bytes) → Call
  resave_call : (group_key batch_id : Bytes) (remaining : List Bytes) → Call
  initialize_session_call : (group_key : Bytes) → Call
  terminate_session_call : (group_key : Bytes) → Call
  get_session_id_call : (group_key : Bytes) → Call
  set_batch_size_call : (batch_size : ℕ) → Call
  -- a round of the heartbeat thread, and a cleanup: they do not take the mutex of `GroupStorage`
  heartbeat : Call
  cleanup : (group_key : Bytes) (timeout_ms : ℤ) → Call

module _ (e : Env) where
  -- A call, its result left out.
  unfoldable pub perform : Call → M (GroupState e) (Unit {0})
  perform (save_call g v) = save e g v >> pure tt
  perform (load_call g) = load e g >> pure tt
  perform (load_batch_call g n) = load_batch e g n >> pure tt
  perform (acknowledge_call g id) = acknowledge_batch e g id >> pure tt
  perform (resave_call g id vs) = resave_batch e g id vs >> pure tt
  perform (initialize_session_call g) = initialize_session e g >> pure tt
  perform (terminate_session_call g) = terminate_session e g
  perform (get_session_id_call g) = get_session_id e g >> pure tt
  perform (set_batch_size_call n) = set_batch_size e n
  perform heartbeat = in_sessions (SessionManager.heartbeat_round e) >> pure tt
  perform (cleanup g t) = in_sessions (SessionManager.cleanup_timeout_sessions e g t) >> pure tt

  -- What the caller has to see to: `Save` is for a group that has a session, and a batch size is above 0.
  unfoldable pub IsAllowed : Call → GroupState e → Type 0
  IsAllowed (save_call g v) s = (sid : Bytes) × (find g s.group_sessions ≡ some sid)
  IsAllowed (load_call g) s = Unit
  IsAllowed (load_batch_call g n) s = Unit
  IsAllowed (acknowledge_call g id) s = Unit
  IsAllowed (resave_call g id vs) s = Unit
  IsAllowed (initialize_session_call g) s = Unit
  IsAllowed (terminate_session_call g) s = Unit
  IsAllowed (get_session_id_call g) s = Unit
  IsAllowed (set_batch_size_call n) s = 0 < n
  IsAllowed heartbeat s = Unit
  IsAllowed (cleanup g t) s = Unit

  -- The states that calls lead to: a call may return or throw, and the next one follows.
  pub data Reaches (s : GroupState e) : GroupState e → Type 0 where
    start : Reaches s s
    step :
        {t u : GroupState e} (c : Call)
        → Reaches s t
        → IsAllowed c t
        → u ≡ (perform c t).1
        → Reaches s u

module _ (e : Env) (st : StorageLaws e.storage) where
  -- The mutex is free, the storage is ready with no batch of writes open, and the batch size is above 0.
  abbrev pub IsFree : GroupState e → Type 0
  IsFree s = IsSound e st s × (s.locked ≡ false)

  -- A result or an exception that leaves such a state.
  abbrev pub Returns : {A : Type 0} → Outcome A × GroupState e → Type 0
  Returns r = Ends IsFree (λ _. IsFree) r

  release-Returns :
      {A : Type 0} (r : Outcome A × GroupState e)
      → Ends (IsSound e st) (λ _. IsSound e st) r
      → Returns (release r)
  unfolding release
  release-Returns (ok a, s) x = (x, refl)
  release-Returns (throw y, s) x = (x, refl)
  release-Returns (deadlock, s) x = x
  release-Returns (trap, s) x = x

  with_lock-Returns :
      {A : Type 0} (m : M (GroupState e) A) (s : GroupState e)
      → IsFree s
      → (IsSound e st (record s { locked = true })
          → Ends (IsSound e st) (λ _. IsSound e st) (m (record s { locked = true })))
      → Returns (with_lock m s)
  unfolding with_lock
  with_lock-Returns m s (x, free) h =
      rw free (release-Returns (m (record s { locked = true })) (h x))

  -- The result is left out.
  done-Returns :
      {A : Type 0} (m : M (GroupState e) A) (s : GroupState e)
      → Returns (m s)
      → Returns ((m >> pure tt) s)
  done-Returns m s x =
      continue-Ends IsFree (λ _. IsFree) (λ _. IsFree) (λ _. pure tt) (λ a s y. y) (m s) x

  in_sessions-Returns :
      {A : Type 0} (m : M (Sessions e) A)
      → Quiets e st m
      → (s : GroupState e) → IsFree s
      → Returns (in_sessions m s)
  unfolding in_sessions
  in_sessions-Returns m h s ((x, sized), free) =
      wrap-Ends (λ t. IsIdle e st t.world) IsFree (λ t. record s { sessions = t })
        (λ _ t. IsIdle e st t.world) (λ _. IsFree) (λ w y. ((y, sized), free))
        (λ a w y. ((y, sized), free)) (m s.sessions) (h s.sessions x)

  pub perform-Returns :
      (c : Call) (s : GroupState e) → IsFree s → IsAllowed e c s → Returns (perform e c s)
  unfolding perform IsAllowed save load load_batch acknowledge_batch resave_batch initialize_session
      terminate_session get_session_id set_batch_size get_or_create_session session_or_create
  perform-Returns (save_call g v) s x (sid, known) =
      done-Returns (save e g v) s
        (with_lock-Returns _ s x (λ y. rw known (save_in-Sounds e st g v sid _ y)))
  perform-Returns (load_call g) s x _ =
      done-Returns (load e g) s (with_lock-Returns _ s x (λ y. load_session-Sounds e st g _ _ y))
  perform-Returns (load_batch_call g n) s x _ =
      done-Returns (load_batch e g n) s
        (with_lock-Returns _ s x (λ y. load_batch_session-Sounds e st g n _ _ y))
  perform-Returns (acknowledge_call g id) s x _ =
      done-Returns (acknowledge_batch e g id) s
        (with_lock-Returns _ s x (λ y. acknowledge_session-Sounds e st g id _ _ y))
  perform-Returns (resave_call g id vs) s x _ =
      done-Returns (resave_batch e g id vs) s
        (with_lock-Returns _ s x (λ y. resave_session-Sounds e st g id vs _ _ y))
  perform-Returns (initialize_session_call g) s x _ = done-Returns (initialize_session e g) s (
      with_lock-Returns _ s x (λ y.
        seq-Keeps (IsSound e st) _ _ (in_sessions-Sounds e st _ (initialize_session-Quiets e st g))
          (register_session-Sounds e st g) _ y))
  perform-Returns (terminate_session_call g) s x _ = with_lock-Returns _ s x (λ y.
      seq-Keeps (IsSound e st) _ _ (in_sessions-Sounds e st _ (terminate_session-Quiets e st g))
        (λ _ s x. x) _ y)
  perform-Returns (get_session_id_call g) s x _ =
      done-Returns (get_session_id e g) s (with_lock-Returns _ s x (λ y. y))
  perform-Returns (set_batch_size_call n) s x sized = with_lock-Returns _ s x (λ (y, _). (y, sized))
  perform-Returns heartbeat s x _ =
      done-Returns (in_sessions (SessionManager.heartbeat_round e)) s
        (in_sessions-Returns _ (heartbeat_round-Quiets e st) s x)
  perform-Returns (cleanup g t) s x _ =
      done-Returns (in_sessions (SessionManager.cleanup_timeout_sessions e g t)) s
        (in_sessions-Returns _ (cleanup_timeout_sessions-Quiets e st g t) s x)

  pub Returns-IsFree : {A : Type 0} (r : Outcome A × GroupState e) → Returns r → IsFree r.1
  Returns-IsFree (ok a, s) x = x
  Returns-IsFree (throw y, s) x = x
  Returns-IsFree (deadlock, s) x = absurd x
  Returns-IsFree (trap, s) x = absurd x

  -- Over a storage that keeps its contract, from a state with the mutex free, the storage ready
  -- with no batch of writes open, and a batch size above 0, every sequence of calls of the public
  -- methods between Initialize and `Shutdown`, in which `Save` is called for groups that have a
  -- session and no batch size is set to 0, with heartbeat rounds and cleanups between the calls,
  -- leads to such a state again, also where a call throws.
  pub Reaches-IsFree : (s t : GroupState e) → IsFree s → Reaches e s t → IsFree t
  Reaches-IsFree s t x start = x
  Reaches-IsFree s u x (step {t} c before allowed at) =
      rw at
        (Returns-IsFree (perform e c t) (perform-Returns c t (Reaches-IsFree s t x before) allowed))
