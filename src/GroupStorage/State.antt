-- ===== src/GroupStorage/State.antt =====
-- include/durastash/group_storage.h: the state of `GroupStorage`, its mutex, and the calls of its parts.
use durastash.Prelude.{ℕ, Bool, true, false, Option, none, some, List, [], Bytes, ℤ, if◌then◌else◌}
use durastash.Outcome.{Outcome, ok, throw, deadlock, trap, M, gets}
use durastash.Env.{Env, World}
use durastash.BatchManager.{BatchManager}
use durastash.SessionManager.{Sessions, new_session_manager}

pub record GroupState (e : Env) : Type 0 where
  pub sessions : Sessions e
  pub db_path : Bytes
  pub batches : BatchManager
  pub locked : Bool
  pub group_sequence_counters : List (Bytes × ℤ)
  pub group_sessions : List (Bytes × Bytes)
  pub group_current_batch_ids : List (Bytes × Bytes)
  pub default_batch_size : ℕ

-- The value that `operator[]` gives for the group after `InitializeSession`.
unfoldable pub session_or_empty : Option Bytes → Bytes
session_or_empty none = []
session_or_empty (some session_id) = session_id

module _ (e : Env) where
  -- The constructor.
  unfoldable pub new_group_storage : Bytes → World e → GroupState e
  new_group_storage db_path w = record {
    sessions = record { world = w; manager = new_session_manager true };
    db_path = db_path;
    batches = record { storage_set = true };
    locked = false;
    group_sequence_counters = [];
    group_sessions = [];
    group_current_batch_ids = [];
    default_batch_size = 100;
  }

module _ {e : Env} {A : Type 0} where
  unfoldable pub release : Outcome A × GroupState e → Outcome A × GroupState e
  release (ok a, s) = (ok a, record s { locked = false })
  release (throw x, s) = (throw x, record s { locked = false })
  release (deadlock, s) = (deadlock, s)
  release (trap, s) = (trap, s)

  -- `std::lock_guard<std::mutex> lock(mutex_)` around a block.
  unfoldable pub with_lock : M (GroupState e) A → M (GroupState e) A
  unfolding release
  with_lock m s = if s.locked then (deadlock, s) else release (m (record s { locked = true }))

  -- A call of the session manager.
  unfoldable pub in_sessions : M (Sessions e) A → M (GroupState e) A
  in_sessions m s = let (r, t) = m s.sessions in (r, record s { sessions = t })

  -- A call of the batch manager or the storage.
  unfoldable pub in_world : M (World e) A → M (GroupState e) A
  in_world m s =
      let (r, w) = m s.sessions.world in
      (r, record s { sessions = record s.sessions { world = w } })

module _ (e : Env) where
  unfoldable pub set_batch_size : ℕ → M (GroupState e) (Unit {0})
  set_batch_size batch_size = with_lock (λ s. (ok tt, record s { default_batch_size = batch_size }))

  -- `GetBatchSize()`; it takes no lock.
  unfoldable pub get_batch_size : M (GroupState e) ℕ
  get_batch_size = gets (λ s. s.default_batch_size)
