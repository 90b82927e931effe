-- ===== src/Calls/Closing.antt =====
-- The end of the object after any sequence of calls.
use durastash.Prelude.{◌≡◌, Bytes}
use durastash.Contents.{Elem}
use durastash.Outcome.{ok}
use durastash.Storage.Contract.{StorageLaws}
use durastash.Env.{Env}
use durastash.GroupStorage.State.{GroupState}
use durastash.GroupStorage.Lifecycle.{destroy}
use durastash.GroupStorage.Shutdowns.{CanEnd, ShutDown, destroy_lem}
use durastash.Calls.Steps.{Reaches, IsFree, Reaches-IsFree}

module _ (e : Env) (st : StorageLaws e.storage) where
  -- Over a storage that keeps its contract, in every state that a sequence of calls of the public
  -- methods leads to from a state with the mutex free, the storage ready with no batch of writes
  -- open, and a batch size above 0, where what is stored as the state of the current session, for
  -- each group with a session, can be read, the destructor of GroupStorage returns; the storage is
  -- closed and no mutex is held, the heartbeat does not run, and there are no sessions and no
  -- counters left.
  pub destroy-Reaches :
      (s t : GroupState e)
      → IsFree e st s
      → Reaches e s t
      → ((g sid : Bytes) → Elem (g, sid) t.group_sessions → CanEnd e st g t.sessions)
      → (u : GroupState e) × (destroy e t ≡ (ok tt, u)) × ShutDown e st u
  destroy-Reaches s t x reached can =
      let ((idle, sized), free) = Reaches-IsFree e st s t x reached in
      destroy_lem e st t idle free can
