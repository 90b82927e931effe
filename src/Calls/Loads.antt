-- ===== src/Calls/Loads.antt =====
-- The bodies of `Load`, `LoadBatch` and `AcknowledgeBatch`, which run with the mutex held.
use durastash.Prelude.{ℕ, Option, none, some, List, [], ◌∷◌, Bytes, ℤ, not, ◌==◌}
use durastash.Outcome.Triples.{seq-Keeps, if-Keeps}
use durastash.Storage.Contract.{StorageLaws}
use durastash.Types.{BatchMetadata}
use durastash.Env.{Env}
use durastash.GroupStorage.Loading.{
  read_values, load_batches, load_session, load_batch_found, load_batch_data, load_one, load_each,
  load_batch_session, acknowledge_session,
}
use durastash.Calls.Worlds.{
  get-Idles, scan_prefix-Idles, get_batch_metadata-Idles, mark_batch_as_loaded-Idles,
  acknowledge_batch-Idles, get_loadable_batches-Idles,
}
use durastash.Calls.Groups.{IsSound, Sounds, in_world-Sounds, reads}

module _ (e : Env) (st : StorageLaws e.storage) where
  read_values-Sounds : (ks : List Bytes) → Sounds e st (read_values e ks)
  unfolding read_values
  read_values-Sounds [] = λ s x. x
  read_values-Sounds (k ∷ ks) =
      seq-Keeps (IsSound e st) _ _ (in_world-Sounds e st _ (get-Idles e st k))
        (λ found. seq-Keeps (IsSound e st) _ _ (read_values-Sounds ks) (λ rest s x. x))

  load_batches-Sounds :
      (g sid : Bytes) (l : List (ℤ × BatchMetadata)) → Sounds e st (load_batches e g sid l)
  unfolding load_batches
  load_batches-Sounds g sid [] = λ s x. x
  load_batches-Sounds g sid ((start, m) ∷ l) =
      seq-Keeps (IsSound e st) _ _ (read_values-Sounds _)
        (λ values. seq-Keeps (IsSound e st) _ _ (load_batches-Sounds g sid l) (λ more s x. x))

  pub load_session-Sounds : (g : Bytes) (o : Option Bytes) → Sounds e st (load_session e g o)
  unfolding load_session
  load_session-Sounds g none = λ s x. x
  load_session-Sounds g (some sid) =
      seq-Keeps (IsSound e st) _ _ (in_world-Sounds e st _ (scan_prefix-Idles e st _))
        (λ found. load_batches-Sounds g sid _)

  load_batch_found-Sounds :
      (g sid id : Bytes) (o : Option BatchMetadata) → Sounds e st (load_batch_found e g sid id o)
  unfolding load_batch_found
  load_batch_found-Sounds g sid id none = λ s x. x
  load_batch_found-Sounds g sid id (some m) =
      seq-Keeps (IsSound e st) _ _ (read_values-Sounds _) (λ values s x. x)

  load_batch_data-Sounds : (g sid id : Bytes) → Sounds e st (load_batch_data e g sid id)
  unfolding load_batch_data
  load_batch_data-Sounds g sid id = reads e st _ _ (λ bm.
      seq-Keeps (IsSound e st) _ _
        (in_world-Sounds e st _ (get_batch_metadata-Idles e st bm g sid id))
        (load_batch_found-Sounds g sid id))

  load_one-Sounds : (g sid id : Bytes) → Sounds e st (load_one e g sid id)
  unfolding load_one
  load_one-Sounds g sid id = reads e st _ _ (λ bm.
      seq-Keeps (IsSound e st) _ _
        (in_world-Sounds e st _ (mark_batch_as_loaded-Idles e st bm g sid id))
        (λ marked.
          if-Keeps (IsSound e st) (not marked) _ _ (λ s x. x) (load_batch_data-Sounds g sid id)))

  load_each-Sounds : (g sid : Bytes) (ids : List Bytes) → Sounds e st (load_each e g sid ids)
  unfolding load_each
  load_each-Sounds g sid [] = λ s x. x
  load_each-Sounds g sid (id ∷ ids) =
      seq-Keeps (IsSound e st) _ _ (load_one-Sounds g sid id)
        (λ result. seq-Keeps (IsSound e st) _ _ (load_each-Sounds g sid ids) (λ rest s x. x))

  pub load_batch_session-Sounds :
      (g : Bytes) (n : ℕ) (o : Option Bytes) → Sounds e st (load_batch_session e g n o)
  unfolding load_batch_session
  load_batch_session-Sounds g n none = λ s x. x
  load_batch_session-Sounds g n (some sid) = reads e st _ _ (λ bm.
      seq-Keeps (IsSound e st) _ _
        (in_world-Sounds e st _ (get_loadable_batches-Idles e st bm g sid n))
        (λ found. if-Keeps (IsSound e st) (found.0 == 0) _ _ (λ s x. x) (load_each-Sounds g sid _)))

  pub acknowledge_session-Sounds :
      (g id : Bytes) (o : Option Bytes) → Sounds e st (acknowledge_session e g id o)
  unfolding acknowledge_session
  acknowledge_session-Sounds g id none = λ s x. x
  acknowledge_session-Sounds g id (some sid) =
      reads e st _ _ (λ bm. in_world-Sounds e st _ (acknowledge_batch-Idles e st bm g sid id))
