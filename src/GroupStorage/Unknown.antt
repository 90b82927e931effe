-- ===== src/GroupStorage/Unknown.antt =====
-- `Save` for a group without a session.
use durastash.Prelude.{◌≡◌, arith, true, false, none, Bytes}
use durastash.Outcome.{deadlock}
use durastash.Maps.{find}
use durastash.Env.{Env}
use durastash.GroupStorage.State.{GroupState, with_lock, release}
use durastash.GroupStorage.Lifecycle.{initialize_session}
use durastash.GroupStorage.Saving.{get_or_create_session, session_or_create, save}

module _ (e : Env) (g : Bytes) (s : GroupState e) (free : s.locked ≡ false)
    (unknown : find g s.group_sessions ≡ none) where
  -- With the mutex free, `Save` for a group without a session never returns: it locks the mutex a
  -- second time.
  pub save_deadlock : (value : Bytes) → save e g value s ≡ (deadlock, record s { locked = true })
  unfolding save get_or_create_session session_or_create initialize_session with_lock release
  save_deadlock value = ground arith
