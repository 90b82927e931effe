-- ===== src/GroupStorage/Queue/Delivering.antt =====
-- What `LoadBatch` returns for a group that holds values, and what it leaves.
use durastash.Prelude.{
  ℕ, ◌+◌, ◌-◌, ◌*◌, ◌≤◌, ◌<◌, ◌≡◌, ◌≢◌, refl, ap, sym, ◌∙◌, arith, Bool, true, false, inl, inr,
  some, List, [], ◌∷◌, Bytes, pos, length, map, take, drop, get_or,
}
use durastash.Prelude.Int.{i64_limit}
use durastash.Contents.{Elem}
use durastash.Outcome.{Outcome, ok}
use durastash.Storage.Contract.{StorageLaws}
use durastash.Json.{JsonLaws}
use durastash.Types.{BatchMetadata, loaded}
use durastash.Types.RoundTrip.{stored_loaded_at}
use durastash.Env.{Env, World}
use durastash.BatchManager.{is_pending, make_batch_metadata_key, generate_data_keys}
use durastash.BatchManager.Metadata.{mark_batch_as_loaded_lem, mark_succeeds}
use durastash.GroupStorage.State.{GroupState, in_world}
use durastash.GroupStorage.Loading.{
  BatchLoadResult, load_one, load_each, load_batch_data, load_batch_found,
}
use durastash.GroupStorage.Loads.{values_of, read_values-values_of}
use durastash.GroupStorage.Queue.{Stored, contents}
use durastash.GroupStorage.Queue.Blocks.{before, get_or-range_from}
use durastash.GroupStorage.Queue.Reading.{block_values}
use durastash.GroupStorage.Queue.Waiting.{take-map-range, Waiting, Waiting-same, Waiting-Elem}
use durastash.GroupStorage.Queue.Marking.{Marked-Stored}

-- What `LoadBatch` returns for batch `i` of a queue of the values `vs` in batches of `size`.
abbrev pub delivery : (ℕ → Bytes) → ℕ → List Bytes → ℕ → BatchLoadResult
delivery id size vs i = record {
  batch_id = id i;
  values = take size (drop (i * size) vs);
  sequence_start = pos (i * size);
  sequence_end = pos (i * size + size - 1);
}

module _ (e : Env) (st : StorageLaws e.storage) (js : JsonLaws e.json) (g sid : Bytes) (gone : ℕ)
    (vs : List Bytes)
    (writes : (k v : Bytes) (store : e.storage.State)
      → st.Ready store
      → (e.storage.put k v store).0 ≡ ok true) where
  abbrev held : GroupState e → GroupState e
  held s = record s { locked = true }

  -- What loading a batch leaves: the batch is loaded, the others stay.
  record Delivered (s : GroupState e) (q : Stored e st g sid gone vs s) (i : ℕ) : Type 0 where
    pub after : GroupState e
    pub returns :
        load_one e g sid (q.batch i).batch_id (held s)
        ≡ (ok (some (delivery (λ j. (q.batch j).batch_id) s.default_batch_size vs i)), held after)
    pub same_size : after.default_batch_size ≡ s.default_batch_size
    pub remains : Stored e st g sid gone vs after
    pub same_count : remains.count ≡ q.count
    pub same_ids : (j : ℕ) → (remains.batch j).batch_id ≡ (q.batch j).batch_id
    pub others : (j : ℕ) → j ≢ i → remains.batch j ≡ q.batch j
    pub is_loaded : is_pending (remains.batch i).status ≡ false

  unloaded : (m : BatchMetadata) → is_pending m.status ≡ true → m.status ≢ loaded
  unfolding is_pending
  unloaded m p q = ground (arith, q)

  -- The values under the data keys of a batch.
  block_taken :
      (s : GroupState e) (q : Stored e st g sid gone vs s) (i : ℕ)
      → (gone ≤ i) × (i < q.count)
      → length vs + s.default_batch_size < i64_limit
      → values_of (contents e st g sid s) (
          generate_data_keys g sid
            (q.batch i).batch_id
            (q.batch i).sequence_start
            (q.batch i).sequence_end)
        ≡ take s.default_batch_size (drop (i * s.default_batch_size) vs)
  block_taken s q i inside small =
      let size = s.default_batch_size in
      block_values e st g sid gone vs s q i inside
        (omega (arith, q.needed, before i q.count size inside.1))
      ∙ sym (take-map-range (λ m. get_or vs m []) size (i * size) (length vs - i * size))
      ∙ ap (take size) (get_or-range_from [] (i * size) vs)

  deliver :
      (s : GroupState e) (q : Stored e st g sid gone vs s) (i : ℕ)
      → (gone ≤ i) × (i < q.count)
      → is_pending (q.batch i).status ≡ true
      → length vs + s.default_batch_size < i64_limit
      → Delivered s q i
  unfolding stored_loaded_at
  deliver s q i inside waits small =
      let m = q.batch i in
      let (json, c, read) = q.there i inside in
      let w = s.sessions.world in
      let marked =
        mark_batch_as_loaded_lem e st js s.batches q.set g sid m.batch_id json m w q.ready c read
          (unloaded m waits) in
      let succeeds =
        mark_succeeds e st js s.batches q.set g sid m.batch_id json m w q.ready c read
          (unloaded m waits)
          (λ v. writes (make_batch_metadata_key g sid m.batch_id) v w.store q.ready) in
      let result : ok marked.done ≡ ok true =
        sym (ap (λ (r : Outcome Bool × World e). r.0) marked.returns) ∙ succeeds in
      let done : marked.done ≡ true = cc result in
      let (q', count, ids, others, new) =
        Marked-Stored e st js g sid gone vs s q i inside marked done in
      let after : GroupState e = record s {
        sessions = record s.sessions { world = marked.after };
      } in
      let keys = generate_data_keys g sid m.batch_id m.sequence_start m.sequence_end in
      let values = read_values-values_of e st g sid keys (held after) marked.ready in
      let found : values_of (contents e st g sid after) keys
          ≡ take s.default_batch_size (drop (i * s.default_batch_size) vs) =
        ap
          (λ (n : BatchMetadata).
            values_of (contents e st g sid after)
              (generate_data_keys g sid n.batch_id n.sequence_start n.sequence_end))
          (sym new)
        ∙ block_taken after q' i (rw count inside) small in
      let run = marked.returns in
      let stored = marked.stored done in
      let begins = q.begins i inside in
      let ends = q.ends i inside in
      record {
        after = after;
        returns =
            unfold load_one load_batch_data load_batch_found in_world in
            ground (arith, run, done, stored, values, found, begins, ends);
        same_size = refl;
        remains = q';
        same_count = count;
        same_ids = ids;
        others = others;
        is_loaded = rw new (unfold is_pending in refl);
      }

  -- The same for batches one after the other.
  pub record DeliveredEach (ids : ℕ → Bytes) (size : ℕ) (s : GroupState e)
      (q : Stored e st g sid gone vs s) (is : List ℕ) : Type 0 where
    pub after : GroupState e
    pub returns :
        load_each e g sid (map ids is) (held s) ≡ (ok (map (delivery ids size vs) is), held after)
    pub same_size : after.default_batch_size ≡ size
    pub remains : Stored e st g sid gone vs after
    pub same_count : remains.count ≡ q.count
    pub same_ids : (j : ℕ) → (remains.batch j).batch_id ≡ ids j
    pub others : (j : ℕ) → ¬ Elem j is → remains.batch j ≡ q.batch j
    pub are_loaded : (j : ℕ) → Elem j is → is_pending (remains.batch j).status ≡ false

  pub deliver_each :
      (ids : ℕ → Bytes) (size : ℕ) (is : List ℕ) (low : ℕ) (s : GroupState e)
      (q : Stored e st g sid gone vs s)
      → ((j : ℕ) → (q.batch j).batch_id ≡ ids j)
      → s.default_batch_size ≡ size
      → gone ≤ low
      → Waiting q.batch q.count low is
      → length vs + size < i64_limit
      → DeliveredEach ids size s q is
  unfolding Waiting load_each
  deliver_each ids size [] low s q names sized above waits small = record {
    after = s;
    returns = refl;
    same_size = sized;
    remains = q;
    same_count = refl;
    same_ids = names;
    others = λ j absent. refl;
    are_loaded = λ j x. elim x [ ];
  }
  deliver_each ids size (i ∷ is) low s q names sized above (bounds, p, waits) small =
      let one = deliver s q i (omega (arith, bounds)) p (rw sized small) in
      let waits' : Waiting one.remains.batch one.remains.count (i + 1) is = rw one.same_count (
        Waiting-same q.batch one.remains.batch q.count (i + 1) is
          (λ j h. one.others j (λ same. omega arith)) waits) in
      let rest =
        deliver_each ids size is (i + 1) one.after one.remains (λ j. one.same_ids j ∙ names j)
          (one.same_size ∙ sized) (omega (arith, bounds)) waits' small in
      let name = names i in
      let first : load_one e g sid (ids i) (held s)
          ≡ (ok (some (delivery ids size vs i)), held one.after) =
        ap (λ (b : Bytes). load_one e g sid b (held s)) (sym name)
        ∙ one.returns
        ∙ ap (λ (r : BatchLoadResult). (ok (some r), held one.after)) (rw (sized, name) refl) in
      let run = rest.returns in
      record {
        after = rest.after;
        returns = ground (arith, first, run);
        same_size = rest.same_size;
        remains = rest.remains;
        same_count = rest.same_count ∙ one.same_count;
        same_ids = rest.same_ids;
        others = λ j absent.
            rest.others j (λ x. absent (inr x)) ∙ one.others j (λ same. absent (inl same));
        are_loaded = λ j x. elim x [
          | inr later ↦ rest.are_loaded j later
          | inl same ↦
              let absent : ¬ Elem i is =
                λ y. let above = Waiting-Elem q.batch q.count (i + 1) i is waits y in omega arith in
              rw (same, rest.others i absent) one.is_loaded
        ];
      }
