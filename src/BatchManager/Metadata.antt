-- ===== src/BatchManager/Metadata.antt =====
-- Creating a batch, reading its metadata and marking it as loaded, over a storage that keeps its
-- contract.
use durastash.Prelude.{
  ◌≡◌, ◌≢◌, refl, ap, sym, ◌∙◌, arith, Bool, true, false, Option, none, some, [], Bytes, ℤ, pos,
  if◌then◌else◌,
}
use durastash.Prelude.Text.{bytes_eq_refl, bytes_eq_ne}
use durastash.Prelude.Int.{to_i64}
use durastash.Errors.{batch_not_found, corrupted_batch, json_error}
use durastash.Contents.{Contents}
use durastash.Outcome.{Outcome, ok, throw}
use durastash.Storage.Contract.{StorageLaws}
use durastash.Json.{JsonLaws}
use durastash.Types.{
  pending, loaded, BatchMetadata, batch_metadata_to_json, batch_metadata_from_json,
}
use durastash.Types.RoundTrip.{stored_loaded_at, batch_metadata_round_trip}
use durastash.Env.{Env, World, on_store, on_host, generate, now}
use durastash.Ulid
use durastash.BatchManager.{
  BatchManager, make_batch_metadata_key, is_loaded, create_batch, read_metadata, get_batch_metadata,
  mark_read, mark_found, mark_batch_as_loaded, acknowledge_batch, acknowledge_found,
}

module _ (e : Env) (st : StorageLaws e.storage) (js : JsonLaws e.json) (bm : BatchManager)
    (set : bm.storage_set ≡ true) where
  abbrev pub Ready : World e → Type 0
  Ready w = st.Ready w.store

  abbrev pub contents : World e → Contents
  contents w = st.contents w.store

  -- The metadata that a new batch has at the time `t`.
  abbrev pub new_metadata : Bytes → ℤ → ℤ → ℤ → BatchMetadata
  new_metadata id start last t = record {
    batch_id = id;
    sequence_start = start;
    sequence_end = last;
    status = pending;
    created_at = t;
    loaded_at = pos 0;
  }

  module _ (g s : Bytes) where
    abbrev key : Bytes → Bytes
    key id = make_batch_metadata_key g s id

    pub on_get :
        (k : Bytes) (w : World e)
        → Ready w
        → on_store e (e.storage.get k) w ≡ (ok (contents w k), w)
    unfolding on_store
    on_get k w r =
        ap (λ (x : Outcome (Option Bytes) × e.storage.State). (x.0, record w { store = x.1 }))
          (st.get_law k w.store r)

    pub get_stored :
        (id json : Bytes) (m : BatchMetadata) (w : World e)
        → Ready w
        → contents w (key id) ≡ some json
        → batch_metadata_from_json e.json json ≡ some m
        → get_batch_metadata e bm g s id w ≡ (ok (some m), w)
    unfolding get_batch_metadata read_metadata
    get_stored id json m w r c p = ground (arith, on_get (key id) w r)

    -- What `CreateBatch` does: it writes the metadata of a pending batch under the identifier that it
    -- generates, and nothing else; it returns the identifier, or the empty string if the write failed.
    pub record Created (start last : ℤ) (w : World e) (r : Outcome Bytes × World e) : Type 0 where
      pub done : Bool
      pub after : World e
      pub time : ℤ
      pub returns : r ≡ (ok (if done then (Ulid.generate e.system w.host).0 else []), after)
      pub ready : Ready after
      pub batch : st.staged after.store ≡ st.staged w.store
      pub stored :
          done ≡ true
          → get_batch_metadata e bm g s (Ulid.generate e.system w.host).0 after
            ≡ (ok (some (new_metadata (Ulid.generate e.system w.host).0 start last time)), after)
      pub json : Bytes
      pub written : done ≡ true → contents after (key (Ulid.generate e.system w.host).0) ≡ some json
      pub reads :
          batch_metadata_from_json e.json json
          ≡ some (new_metadata (Ulid.generate e.system w.host).0 start last time)
      pub frame :
          done ≡ true
          → (j : Bytes) → j ≢ key (Ulid.generate e.system w.host).0
          → contents after j ≡ contents w j

    -- Over a ready storage that keeps its contract, `CreateBatch` never throws; it returns the
    -- generated identifier or, if the write failed, the empty string; if the write succeeded, the
    -- batch reads back as pending with the given range, and no other key changed.
    pub create_batch_lem :
        (start last : ℤ) (w : World e)
        → Ready w
        → Created start last w (create_batch e bm g s start last w)
    unfolding create_batch on_store on_host generate now
    create_batch_lem start last w r =
        let id = (Ulid.generate e.system w.host).0 in
        let h1 = (Ulid.generate e.system w.host).1 in
        let t = to_i64 (Ulid.now e.system h1).0 in
        let json = batch_metadata_to_json e.json (new_metadata id start last t) in
        let wrote = st.put_law (key id) json w.store r in
        let after : World e = record { store = wrote.after; host = (Ulid.now e.system h1).1 } in
        record {
          done = wrote.done;
          after = after;
          time = t;
          returns = ground (arith, wrote.returns);
          ready = wrote.ready;
          batch = wrote.batch;
          json = json;
          written = λ d. wrote.holds d (key id) ∙ rw (bytes_eq_refl (key id));
          reads =
              batch_metadata_round_trip e.json js (new_metadata id start last t)
              ∙ unfold stored_loaded_at in refl;
          stored = λ d.
              get_stored id json (new_metadata id start last t) after wrote.ready
                (wrote.holds d (key id) ∙ rw (bytes_eq_refl (key id)))
                (batch_metadata_round_trip e.json js (new_metadata id start last t)
                  ∙ unfold stored_loaded_at in refl);
          frame = λ d j ne. wrote.holds d j ∙ rw (bytes_eq_ne (key id) j (λ q. ne (sym q)));
        }

    -- Over a ready storage that keeps its contract, without metadata under the identifier, a
    -- lookup finds nothing, marking throws that the batch is not found, an acknowledgement fails,
    -- and nothing changes.
    pub missing_batch :
        (id : Bytes) (w : World e)
        → Ready w
        → contents w (key id) ≡ none
        → (get_batch_metadata e bm g s id w ≡ (ok none, w))
          × (mark_batch_as_loaded e bm g s id w ≡ (throw (batch_not_found id), w))
          × (acknowledge_batch e bm g s id w ≡ (ok false, w))
    unfolding get_batch_metadata read_metadata mark_batch_as_loaded mark_found acknowledge_batch
        acknowledge_found
    missing_batch id w r c = ground (arith, on_get (key id) w r)

    -- Over a ready storage that keeps its contract, where the stored metadata cannot be read, a
    -- lookup lets the exception out, marking throws that the batch is corrupted, an
    -- acknowledgement fails, and nothing changes.
    pub corrupted_metadata :
        (id json : Bytes) (w : World e)
        → Ready w
        → contents w (key id) ≡ some json
        → batch_metadata_from_json e.json json ≡ none
        → (get_batch_metadata e bm g s id w ≡ (throw json_error, w))
          × (mark_batch_as_loaded e bm g s id w ≡ (throw (corrupted_batch id), w))
          × (acknowledge_batch e bm g s id w ≡ (ok false, w))
    unfolding get_batch_metadata read_metadata mark_batch_as_loaded mark_found acknowledge_batch
        acknowledge_found
    corrupted_metadata id json w r c p = ground (arith, on_get (key id) w r)

    -- Over a ready storage that keeps its contract, a batch whose metadata can be read and that is
    -- loaded cannot be loaded again: marking returns false and changes nothing.
    pub mark_loaded :
        (id json : Bytes) (m : BatchMetadata) (w : World e)
        → Ready w
        → contents w (key id) ≡ some json
        → batch_metadata_from_json e.json json ≡ some m
        → m.status ≡ loaded
        → mark_batch_as_loaded e bm g s id w ≡ (ok false, w)
    unfolding mark_batch_as_loaded mark_found mark_read is_loaded
    mark_loaded id json m w r c p l = ground (arith, on_get (key id) w r)

    -- Marking a batch that is not loaded reports success where the write does.
    pub mark_succeeds :
        (id json : Bytes) (m : BatchMetadata) (w : World e)
        → Ready w
        → contents w (key id) ≡ some json
        → batch_metadata_from_json e.json json ≡ some m
        → m.status ≢ loaded
        → ((v : Bytes) → (e.storage.put (key id) v w.store).0 ≡ ok true)
        → (mark_batch_as_loaded e bm g s id w).0 ≡ ok true
    unfolding mark_batch_as_loaded mark_found mark_read now on_host on_store is_loaded
    mark_succeeds id json m w r c p unloaded writes =
        let t = to_i64 (Ulid.now e.system w.host).0 in
        let wrote =
          writes (batch_metadata_to_json e.json (record m { status = loaded; loaded_at = t })) in
        ground (arith, on_get (key id) w r, wrote)

    -- What marking a batch with the metadata `m` leaves behind: if it reports success, the batch reads
    -- back as loaded with its range unchanged, no other key changes, and a second attempt returns
    -- `false`.
    pub record Marked (id : Bytes) (m : BatchMetadata) (w : World e) (r : Outcome Bool × World e)
        : Type 0 where
      pub done : Bool
      pub after : World e
      pub time : ℤ
      pub returns : r ≡ (ok done, after)
      pub ready : Ready after
      pub batch : st.staged after.store ≡ st.staged w.store
      pub stored :
          done ≡ true
          → get_batch_metadata e bm g s id after
            ≡ (ok (some (stored_loaded_at (record m { status = loaded; loaded_at = time }))), after)
      pub json : Bytes
      pub written : done ≡ true → contents after (key id) ≡ some json
      pub reads :
          batch_metadata_from_json e.json json
          ≡ some (stored_loaded_at (record m { status = loaded; loaded_at = time }))
      pub again : done ≡ true → mark_batch_as_loaded e bm g s id after ≡ (ok false, after)
      pub frame : done ≡ true → (j : Bytes) → j ≢ key id → contents after j ≡ contents w j

    -- Over a ready storage that keeps its contract, marking a batch whose metadata can be read and
    -- that is not loaded never throws; if it reports success, the batch reads back as loaded with
    -- its range unchanged, no other key changed, and a second attempt returns false.
    pub mark_batch_as_loaded_lem :
        (id json : Bytes) (m : BatchMetadata) (w : World e)
        → Ready w
        → contents w (key id) ≡ some json
        → batch_metadata_from_json e.json json ≡ some m
        → m.status ≢ loaded
        → Marked id m w (mark_batch_as_loaded e bm g s id w)
    mark_batch_as_loaded_lem id json m w r c p unloaded =
        let t = to_i64 (Ulid.now e.system w.host).0 in
        let m' : BatchMetadata = record m { status = loaded; loaded_at = t } in
        let json' = batch_metadata_to_json e.json m' in
        let wrote = st.put_law (key id) json' w.store r in
        let after : World e = record { store = wrote.after; host = (Ulid.now e.system w.host).1 } in
        let found : wrote.done ≡ true → contents after (key id) ≡ some json' =
          λ d. wrote.holds d (key id) ∙ rw (bytes_eq_refl (key id)) in
        let read = batch_metadata_round_trip e.json js m' in
        record {
          done = wrote.done;
          after = after;
          time = t;
          returns =
              unfold mark_batch_as_loaded mark_found mark_read now on_host on_store is_loaded in
              ground (arith, on_get (key id) w r, wrote.returns);
          ready = wrote.ready;
          batch = wrote.batch;
          stored = λ d. get_stored id json' (stored_loaded_at m') after wrote.ready (found d) read;
          json = json';
          written = found;
          reads = read;
          again = λ d.
              mark_loaded id json' (stored_loaded_at m') after wrote.ready (found d) read
                (unfold stored_loaded_at in refl);
          frame = λ d j ne. wrote.holds d j ∙ rw (bytes_eq_ne (key id) j (λ q. ne (sym q)));
        }
