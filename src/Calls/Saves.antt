-- ===== src/Calls/Saves.antt =====
-- The bodies of `Save`, `ResaveBatch` and the session methods, which run with the mutex held.
use durastash.Prelude.{
  ℕ, ◌<◌, ◌≡◌, arith, Bool, true, false, Option, none, some, List, [], ◌∷◌, Bytes, ℤ, pos, not,
  ◌==◌, if◌then◌else◌,
}
use durastash.Prelude.Text.{is_empty}
use durastash.Outcome.{pure, gets, ◌>>=◌}
use durastash.Outcome.Triples.{seq, seq-Keeps, if-Keeps, else-Keeps}
use durastash.Storage.Contract.{StorageLaws}
use durastash.Maps.{find}
use durastash.Types.{BatchMetadata}
use durastash.Env.{Env}
use durastash.BatchManager.{generate_data_keys, is_loaded}
use durastash.GroupStorage.Lifecycle.{register_session}
use durastash.GroupStorage.Saving.{
  batch_start_of, batch_end_of, batch_key_of, get_next_sequence_id, batch_or_create, put_value,
  put_first, save_numbered,
}
use durastash.GroupStorage.Resaving.{
  put_each, delete_each, resave_write, resave_remaining, resave_found, resave_session,
}
use durastash.Calls.Worlds.{
  put-Idles, put_to_batch-Opens, delete_from_batch-Opens, create_batch-Idles,
  get_batch_metadata-Idles, acknowledge_batch-Idles,
}
use durastash.Calls.Sessions.{get_session_id-Quiets, start_heartbeat_thread-Quiets}
use durastash.Calls.Groups.{
  IsSound, IsWriting, Sounds, Writes, in_world-Sounds, in_world-Writes, in_sessions-Sounds, reads,
  get_next_sequence_id-Sounds, batch-Sounds, commit-Sounds,
}

module _ (e : Env) (st : StorageLaws e.storage) where
  batch_or_create-Sounds :
      (g sid key : Bytes) (a b : ℤ) (o : Option Bytes)
      → Sounds e st (batch_or_create e g sid key a b o)
  unfolding batch_or_create
  batch_or_create-Sounds g sid key a b (some id) = λ s x. x
  batch_or_create-Sounds g sid key a b none = reads e st _ _ (λ bm.
      seq-Keeps (IsSound e st) _ _ (in_world-Sounds e st _ (create_batch-Idles e st bm g sid a b))
        (λ id. if-Keeps (IsSound e st) (is_empty id) _ _ (λ s x. x) (λ s x. x)))

  put_first-Sounds : (ks : List Bytes) (v : Bytes) → Sounds e st (put_first e ks v)
  unfolding put_first
  put_first-Sounds [] v = λ s x. x
  put_first-Sounds (k ∷ ks) v = in_world-Sounds e st _ (put-Idles e st k v)

  put_value-Sounds :
      (g v sid : Bytes) (q : ℤ) (batch : Option Bytes) → Sounds e st (put_value e g v sid q batch)
  unfolding put_value
  put_value-Sounds g v sid q none = λ s x. x
  put_value-Sounds g v sid q (some id) = put_first-Sounds (generate_data_keys g sid id q q) v

  not_zero : (n : ℕ) → 0 < n → (n == 0) ≡ false
  not_zero n h = ground arith

  save_numbered-Sounds :
      (g v sid : Bytes) (q : ℤ) (n : ℕ) → 0 < n → Sounds e st (save_numbered e g v sid q n)
  unfolding save_numbered
  save_numbered-Sounds g v sid q n h =
      let from = batch_start_of q n in
      let key = batch_key_of g from in
      else-Keeps (IsSound e st) (n == 0) _ _ (not_zero n h) (
        reads e st (λ s. find key s.group_current_batch_ids) _
          (λ current.
            seq-Keeps (IsSound e st) _ _
              (batch_or_create-Sounds g sid key from (batch_end_of from n) current)
              (put_value-Sounds g v sid q)))

  -- `Save` after the session is known.
  pub save_in-Sounds :
      (g v sid : Bytes)
      → Sounds e st (
          if is_empty sid then pure false else do
            sequence_id ← get_next_sequence_id e g
            size ← gets (λ s. s.default_batch_size)
            save_numbered e g v sid sequence_id size)
  save_in-Sounds g v sid =
      if-Keeps (IsSound e st) (is_empty sid) _ _ (λ s x. x)
        (seq-Keeps (IsSound e st) _ _ (get_next_sequence_id-Sounds e st g)
          (λ q s x. save_numbered-Sounds g v sid q s.default_batch_size x.1 s x))

  put_each-Writes : (ks vs : List Bytes) → Writes e st (put_each e ks vs)
  unfolding put_each
  put_each-Writes [] vs = λ s x. x
  put_each-Writes (k ∷ ks) [] = λ s x. x
  put_each-Writes (k ∷ ks) (v ∷ vs) =
      seq (IsSound e st) (IsWriting e st) (λ _. IsWriting e st) (λ _. IsWriting e st) _ _
        (in_world-Writes e st _ (put_to_batch-Opens e st k v)) (λ _. put_each-Writes ks vs)

  delete_each-Writes : (ks : List Bytes) → Writes e st (delete_each e ks)
  unfolding delete_each
  delete_each-Writes [] = λ s x. x
  delete_each-Writes (k ∷ ks) =
      seq (IsSound e st) (IsWriting e st) (λ _. IsWriting e st) (λ _. IsWriting e st) _ _
        (in_world-Writes e st _ (delete_from_batch-Opens e st k)) (λ _. delete_each-Writes ks)

  resave_write-Sounds :
      (g sid id : Bytes) (m : BatchMetadata) (new_id : Bytes) (a b : ℤ) (vs : List Bytes)
      → Sounds e st (resave_write e g sid id m new_id a b vs)
  unfolding resave_write
  resave_write-Sounds g sid id m new_id a b vs = batch-Sounds e st _ (
      seq (IsSound e st) (IsWriting e st) (λ _. IsWriting e st) (λ _. IsSound e st) _ _
        (put_each-Writes _ vs)
        (λ _.
          seq (IsSound e st) (IsWriting e st) (λ _. IsWriting e st) (λ _. IsSound e st) _ _
            (in_world-Writes e st _ (delete_from_batch-Opens e st _))
            (λ _.
              seq (IsSound e st) (IsWriting e st) (λ _. IsWriting e st) (λ _. IsSound e st) _ _
                (delete_each-Writes _) (λ _. commit-Sounds e st))))

  resave_remaining-Sounds :
      (g sid id : Bytes) (m : BatchMetadata) (vs : List Bytes)
      → Sounds e st (resave_remaining e g sid id m vs)
  unfolding resave_remaining
  resave_remaining-Sounds g sid id m vs = reads e st _ _ (λ bm.
      seq-Keeps (IsSound e st) _ _ (get_next_sequence_id-Sounds e st g) (λ start.
        seq-Keeps (IsSound e st) _ _ (in_world-Sounds e st _ (create_batch-Idles e st bm g sid _ _))
          (λ new_id.
            if-Keeps (IsSound e st) (is_empty new_id) _ _ (λ s x. x)
              (resave_write-Sounds g sid id m new_id _ _ vs))))

  resave_found-Sounds :
      (g sid id : Bytes) (vs : List Bytes) (o : Option BatchMetadata)
      → Sounds e st (resave_found e g sid id vs o)
  unfolding resave_found
  resave_found-Sounds g sid id vs none = λ s x. x
  resave_found-Sounds g sid id [] (some m) =
      if-Keeps (IsSound e st) (not (is_loaded m.status)) _ _ (λ s x. x)
        (reads e st _ _ (λ bm. in_world-Sounds e st _ (acknowledge_batch-Idles e st bm g sid id)))
  resave_found-Sounds g sid id (v ∷ vs) (some m) =
      if-Keeps (IsSound e st) (not (is_loaded m.status)) _ _ (λ s x. x)
        (resave_remaining-Sounds g sid id m (v ∷ vs))

  pub resave_session-Sounds :
      (g id : Bytes) (vs : List Bytes) (o : Option Bytes) → Sounds e st (resave_session e g id vs o)
  unfolding resave_session
  resave_session-Sounds g id vs none = λ s x. x
  resave_session-Sounds g id vs (some sid) = reads e st _ _ (λ bm.
      seq-Keeps (IsSound e st) _ _
        (in_world-Sounds e st _ (get_batch_metadata-Idles e st bm g sid id))
        (resave_found-Sounds g sid id vs))

  pub register_session-Sounds : (g : Bytes) (done : Bool) → Sounds e st (register_session e g done)
  unfolding register_session
  register_session-Sounds g false = λ s x. x
  register_session-Sounds g true =
      seq-Keeps (IsSound e st) _ _ (in_sessions-Sounds e st _ (get_session_id-Quiets e st))
        (λ sid s x.
          seq-Keeps (IsSound e st) _ _
            (in_sessions-Sounds e st _ (start_heartbeat_thread-Quiets e st (pos 5000))) (λ _ s x. x)
            _ x)
