-- ===== src/Calls/Bounded.antt =====
-- Calls for which no range of data keys ends at the largest `int64_t`.
use durastash.Prelude.{◌-◌, ◌≡◌, ◌≢◌, some, Bytes, pos, length}
use durastash.Prelude.Int.{i64_limit}
use durastash.Outcome.{Outcome, ok, throw, deadlock, trap}
use durastash.Storage.Contract.{StorageLaws}
use durastash.Maps.{find}
use durastash.Types.{BatchMetadata, batch_metadata_from_json}
use durastash.Env.{Env}
use durastash.GroupStorage.State.{GroupState}
use durastash.GroupStorage.Saving.{batch_end_of}
use durastash.GroupStorage.Counters.{given}
use durastash.Calls.Steps.{
  Call, save_call, load_call, load_batch_call, acknowledge_call, resave_call,
  initialize_session_call, terminate_session_call, get_session_id_call, set_batch_size_call,
  heartbeat, cleanup, perform, IsAllowed, Reaches, IsFree, Returns, perform-Returns, Returns-IsFree,
  Reaches-IsFree,
}

module _ (e : Env) (st : StorageLaws e.storage) where
  -- No batch in the store has a range that ends at the largest `int64_t`.
  abbrev pub EndsBelow : GroupState e → Type 0
  EndsBelow s =
      (k v : Bytes) (m : BatchMetadata)
      → st.contents s.sessions.world.store k ≡ some v
      → batch_metadata_from_json e.json v ≡ some m
      → m.sequence_end ≢ pos (i64_limit - 1)

  -- The ranges whose keys a call asks for end below the largest `int64_t`: the loop over the numbers
  -- of a range that ends there goes past it. `Save` asks for the key of its own number, `ResaveBatch`
  -- also for the keys of the new batch.
  unfoldable pub IsBelow : Call → GroupState e → Type 0
  IsBelow (save_call g v) s = given e (find g s.group_sequence_counters) ≢ pos (i64_limit - 1)
  IsBelow (load_call g) s = EndsBelow s
  IsBelow (load_batch_call g n) s = EndsBelow s
  IsBelow (acknowledge_call g id) s = EndsBelow s
  IsBelow (resave_call g id vs) s =
      EndsBelow s
      × (batch_end_of (given e (find g s.group_sequence_counters)) (length vs)
          ≢ pos (i64_limit - 1))
  IsBelow (initialize_session_call g) s = Unit
  IsBelow (terminate_session_call g) s = Unit
  IsBelow (get_session_id_call g) s = Unit
  IsBelow (set_batch_size_call n) s = Unit
  IsBelow heartbeat s = Unit
  IsBelow (cleanup g t) s = Unit

  -- Over a storage that keeps its contract, in every state that such a sequence of calls leads to
  -- from a state with the mutex free, the storage ready with no batch of writes open, and a batch
  -- size above 0, every further call with the same conditions, where no stored batch and no range
  -- that the call makes ends at the largest `int64_t`, returns or throws: it neither waits for a
  -- mutex that its thread holds nor divides by zero, and it leaves the mutex free, the storage
  -- ready with no batch of writes open, and the batch size above 0.
  pub every_call_returns :
      (s t : GroupState e) (c : Call)
      → IsFree e st s
      → Reaches e s t
      → IsAllowed e c t
      → IsBelow c t
      → ((perform e c t).0 ≢ deadlock) × ((perform e c t).0 ≢ trap) × IsFree e st (perform e c t).1
  every_call_returns s t c x reached allowed below =
      let y = perform-Returns e st c t (Reaches-IsFree e st s t x reached) allowed in
      (
        not_deadlock (perform e c t) y,
        not_trap (perform e c t) y,
        Returns-IsFree e st (perform e c t) y,
      )
    where
      not_deadlock : (r : Outcome (Unit {0}) × GroupState e) → Returns e st r → r.0 ≢ deadlock
      not_deadlock (ok a, s) y p = cc p
      not_deadlock (throw z, s) y p = cc p
      not_deadlock (deadlock, s) y p = y
      not_deadlock (trap, s) y p = y

      not_trap : (r : Outcome (Unit {0}) × GroupState e) → Returns e st r → r.0 ≢ trap
      not_trap (ok a, s) y p = cc p
      not_trap (throw z, s) y p = cc p
      not_trap (deadlock, s) y p = y
      not_trap (trap, s) y p = y
