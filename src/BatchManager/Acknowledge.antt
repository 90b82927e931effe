-- ===== src/BatchManager/Acknowledge.antt =====
-- Acknowledging a batch deletes its metadata and its data in one write.
use durastash.Prelude.{
  ◌≡◌, refl, ap, sym, ◌∙◌, arith, Bool, true, none, some, List, [], ◌∷◌, ◌++◌, Bytes, inl, inr,
}
use mathlib.Core.Path.{subst}
use mathlib.Core.List.{append-nil, append_assoc}
use durastash.Prelude.Text.{bytes_eq_refl, bytes_eq_ne}
use durastash.Contents.{Contents, Write, delete, apply_write, apply_writes, Elem}
use durastash.Outcome.{Outcome, ok}
use durastash.Storage.Contract.{StorageLaws}
use durastash.Json.{JsonLaws}
use durastash.Types.{BatchMetadata, batch_metadata_from_json}
use durastash.Env.{Env, World, on_store}
use durastash.BatchManager.{
  BatchManager, make_batch_metadata_key, generate_data_keys, delete_all, acknowledge_read,
  acknowledge_found, acknowledge_batch,
}
use durastash.BatchManager.Metadata.{on_get}

unfoldable pub deletes : List Bytes → List Write
deletes [] = []
deletes (k ∷ ks) = delete k ∷ deletes ks

-- A key among the deleted ones holds nothing afterwards, any other holds what it held.
deletes-keep :
    (ks : List Bytes) (c : Contents) (j : Bytes) → c j ≡ none → apply_writes (deletes ks) c j ≡ none
unfolding deletes
deletes-keep [] c j h = h
deletes-keep (k ∷ ks) c j h = deletes-keep ks (apply_write (delete k) c) j (ground (arith))

pub deletes-Elem :
    (ks : List Bytes) (c : Contents) (j : Bytes) → Elem j ks → apply_writes (deletes ks) c j ≡ none
unfolding deletes
deletes-Elem [] c j m = elim m [ ]
deletes-Elem (k ∷ ks) c j (inl e) =
    deletes-keep ks (apply_write (delete k) c) j (rw e (rw bytes_eq_refl))
deletes-Elem (k ∷ ks) c j (inr m) = deletes-Elem ks (apply_write (delete k) c) j m

pub deletes-other :
    (ks : List Bytes) (c : Contents) (j : Bytes) → ¬ Elem j ks → apply_writes (deletes ks) c j ≡ c j
unfolding deletes
deletes-other [] c j m = refl
deletes-other (k ∷ ks) c j m =
    deletes-other ks (apply_write (delete k) c) j (λ n. m (inr n))
    ∙ rw (bytes_eq_ne k j (λ e. m (inl (sym e))))

module _ (e : Env) (st : StorageLaws e.storage) (bm : BatchManager) where
  -- The loop over the data keys adds a deletion for each.
  delete_all-staged :
      (ks : List Bytes) (w : World e) (ws : List Write)
      → st.Ready w.store
      → st.staged w.store ≡ some ws
      → (w' : World e) × (delete_all e bm ks w ≡ (ok tt, w'))
        × st.Ready w'.store
        × (st.staged w'.store ≡ some (ws ++ deletes ks))
        × ((j : Bytes) → st.contents w'.store j ≡ st.contents w.store j)
  unfolding delete_all deletes on_store
  delete_all-staged [] w ws r b = (w, refl, r, b ∙ ap some (sym (append-nil ws)), λ j. refl)
  delete_all-staged (k ∷ ks) w ws r b =
      let one = st.delete_from_batch_law k w.store ws r b in
      let (w', run, r', b', same) =
        delete_all-staged ks (record w { store = one.after }) (ws ++ (delete k ∷ [])) one.ready
          one.batch in
      (
        w',
        rw one.returns run,
        r',
        b' ∙ ap some (append_assoc ws (delete k ∷ []) (deletes ks)),
        λ j. same j ∙ one.holds j,
      )

  module _ (js : JsonLaws e.json) (set : bm.storage_set ≡ true) (g s id : Bytes) where
    abbrev doomed : BatchMetadata → List Bytes
    doomed m =
        make_batch_metadata_key g s id ∷ generate_data_keys g s id m.sequence_start m.sequence_end

    -- What acknowledging the batch with the metadata `m` leaves behind: if it reports success, the
    -- metadata and every data key of the range are gone and no other key changes; in any case no batch
    -- is left open.
    pub record Acknowledged (m : BatchMetadata) (w : World e) (r : Outcome Bool × World e)
        : Type 0 where
      pub done : Bool
      pub after : World e
      pub returns : r ≡ (ok done, after)
      pub ready : st.Ready after.store
      pub batch : st.staged after.store ≡ none
      pub gone : done ≡ true → (j : Bytes) → Elem j (doomed m) → st.contents after.store j ≡ none
      pub frame :
          done ≡ true
          → (j : Bytes) → ¬ Elem j (doomed m)
          → st.contents after.store j ≡ st.contents w.store j

    acknowledge_read_lem :
        (m : BatchMetadata) (w : World e)
        → st.Ready w.store
        → st.staged w.store ≡ none
        → Acknowledged m w (acknowledge_read e bm g s id m w)
    unfolding acknowledge_read on_store
    acknowledge_read_lem m w r b =
        let (s1, run1, r1, b1, same1) = st.begin_law w.store r b in
        let meta = st.delete_from_batch_law (make_batch_metadata_key g s id) s1 [] r1 b1 in
        let (w2, run2, r2, b2, same2) =
          delete_all-staged (generate_data_keys g s id m.sequence_start m.sequence_end)
            (record w { store = meta.after }) (delete (make_batch_metadata_key g s id) ∷ [])
            meta.ready meta.batch in
        let wrote = st.commit_law w2.store (deletes (doomed m)) r2 (unfold deletes in b2) in
        let before : (j : Bytes) → st.contents w2.store j ≡ st.contents w.store j =
          λ j. same2 j ∙ meta.holds j ∙ same1 j in
        record {
          done = wrote.done;
          after = record w2 { store = wrote.after };
          returns = rw (run1, meta.returns, run2, wrote.returns);
          ready = wrote.ready;
          batch = wrote.batch;
          gone = λ d j x. wrote.holds d j ∙ deletes-Elem (doomed m) _ j x;
          frame = λ d j x. wrote.holds d j ∙ deletes-other (doomed m) _ j x ∙ before j;
        }

    -- The whole call, for metadata that can be read.
    pub acknowledge_batch-Acknowledged :
        (json : Bytes) (m : BatchMetadata) (w : World e)
        → st.Ready w.store
        → st.staged w.store ≡ none
        → st.contents w.store (make_batch_metadata_key g s id) ≡ some json
        → batch_metadata_from_json e.json json ≡ some m
        → Acknowledged m w (acknowledge_batch e bm g s id w)
    acknowledge_batch-Acknowledged json m w r b c p =
        subst (Acknowledged m w) (sym reads) (acknowledge_read_lem m w r b)
      where
        reads : acknowledge_batch e bm g s id w ≡ acknowledge_read e bm g s id m w
        reads =
            unfold acknowledge_batch acknowledge_found in
            ground (arith, on_get e st js bm set g s (make_batch_metadata_key g s id) w r)
