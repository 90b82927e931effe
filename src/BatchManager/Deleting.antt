-- ===== src/BatchManager/Deleting.antt =====
-- What `AcknowledgeBatch` deletes, key by key.
use durastash.Prelude.{
  ℕ, ◌+◌, ◌-◌, ◌≤◌, ◌<◌, ◌≡◌, ◌≢◌, refl, arith, Bool, true, none, some, Bytes, pos, inl, inr,
}
use durastash.Prelude.Int.{i64_limit}
use durastash.Contents.{Elem}
use durastash.Outcome.{Outcome, ok}
use durastash.Storage.Contract.{StorageLaws}
use durastash.Json.{JsonLaws}
use durastash.Types.{BatchMetadata, batch_metadata_from_json}
use durastash.Env.{Env, World}
use durastash.BatchManager.{
  BatchManager, make_batch_metadata_key, make_data_key, generate_data_keys, acknowledge_batch,
}
use durastash.BatchManager.DataKeys.{keys_of, generate_data_keys-keys}
use durastash.BatchManager.Acknowledge.{acknowledge_batch-Acknowledged}
use durastash.GroupStorage.Queue.Blocks.{Elem-range}

module _ (e : Env) (st : StorageLaws e.storage) (bm : BatchManager) (js : JsonLaws e.json)
    (set : bm.storage_set ≡ true) (g s id : Bytes) where
  -- The data key of a number.
  abbrev data_key : ℕ → Bytes
  data_key i = make_data_key g s id (pos i)

  -- The keys of a range are those of its numbers.
  generate_data_keys_iff :
      (a b : ℕ) (j : Bytes)
      → b + 1 < i64_limit
      → (Elem j (generate_data_keys g s id (pos a) (pos b))
          → (i : ℕ) × (a ≤ i) × (i ≤ b) × (j ≡ data_key i))
        × ((i : ℕ) → a ≤ i → i ≤ b → Elem (data_key i) (generate_data_keys g s id (pos a) (pos b)))
  unfolding keys_of
  generate_data_keys_iff a b j below =
      let all = generate_data_keys-keys g s id a b below in
      (
        λ x.
            let y : Elem j (keys_of g s id a (b + 1 - a)) = rw all at x in
            let (i, low, high, p) = (Elem-range data_key a (b + 1 - a) j).0 y in
            (i, low, omega arith, p),
        λ i low high.
            rw all ((Elem-range data_key a (b + 1 - a) (data_key i)).1 (i, low, omega arith, refl)),
      )

  -- What acknowledging a batch with the numbers from `a` to `b` leaves behind: if it reports success,
  -- the keys of the metadata and of every number are gone and no other key changes; in any case no
  -- batch of writes is left open.
  pub record Deleted (a b : ℕ) (w : World e) (r : Outcome Bool × World e) : Type 0 where
    pub done : Bool
    pub after : World e
    pub returns : r ≡ (ok done, after)
    pub ready : st.Ready after.store
    pub batch : st.staged after.store ≡ none
    pub metadata_gone :
        done ≡ true → st.contents after.store (make_batch_metadata_key g s id) ≡ none
    pub data_gone :
        done ≡ true
        → (i : ℕ) → a ≤ i
        → i ≤ b
        → st.contents after.store (make_data_key g s id (pos i)) ≡ none
    pub frame :
        done ≡ true
        → (j : Bytes) → j ≢ make_batch_metadata_key g s id
        → ((i : ℕ) → a ≤ i → i ≤ b → j ≢ make_data_key g s id (pos i))
        → st.contents after.store j ≡ st.contents w.store j

  -- Over a ready storage that keeps its contract and has no batch open, acknowledging a batch
  -- whose metadata can be read and whose range of numbers from 0 on ends below 2^63 - 1 returns;
  -- if it reports success, the keys of the metadata and of every number from the first to the last
  -- are gone and no other key changed; no storage batch is left open.
  pub acknowledge_batch_lem :
      (a b : ℕ) (json : Bytes) (m : BatchMetadata) (w : World e)
      → st.Ready w.store
      → st.staged w.store ≡ none
      → st.contents w.store (make_batch_metadata_key g s id) ≡ some json
      → batch_metadata_from_json e.json json ≡ some m
      → m.sequence_start ≡ pos a
      → m.sequence_end ≡ pos b
      → b + 1 < i64_limit
      → Deleted a b w (acknowledge_batch e bm g s id w)
  acknowledge_batch_lem a b json m w r idle c read begins ends below =
      let acked = acknowledge_batch-Acknowledged e st bm js set g s id json m w r idle c read in
      record {
        done = acked.done;
        after = acked.after;
        returns = acked.returns;
        ready = acked.ready;
        batch = acked.batch;
        metadata_gone = λ d. acked.gone d (make_batch_metadata_key g s id) (inl refl);
        data_gone = λ d i low high. acked.gone d (data_key i) (
            inr (rw (begins, ends) ((generate_data_keys_iff a b (data_key i) below).1 i low high)));
        frame = λ d j other_metadata other_data. acked.frame d j (λ x. elim x [
          | inl p ↦ other_metadata p
          | inr y ↦
              let z : Elem j (generate_data_keys g s id (pos a) (pos b)) = rw (begins, ends) at y in
              let (i, low, high, p) = (generate_data_keys_iff a b j below).0 z in
              other_data i low high p
        ]);
      }
