-- ===== src/GroupStorage/Queue/Consuming.antt =====
-- `AcknowledgeBatch` takes the first batch out of the queue.
use native.Mathlib.Decide.{dec_lt}
use durastash.Prelude.{
  ℕ, ◌+◌, ◌*◌, ◌≤◌, ◌<◌, ◌≡◌, ◌≢◌, inl, inr, refl, ap, sym, ◌∙◌, arith, Bool, true, false, some,
  none, List, ◌∷◌, Bytes, pos, length,
}
use durastash.Prelude.Text.{starts_with}
use durastash.Prelude.Int.{i64_limit}
use durastash.Contents.{Elem}
use durastash.Outcome.{ok}
use durastash.Storage.Contract.{StorageLaws}
use durastash.Json.{JsonLaws}
use durastash.Types.{batch_metadata_from_json}
use durastash.Env.{Env}
use durastash.Ulid.Validity.{is_valid_iff}
use durastash.BatchManager
use durastash.BatchManager.{
  batch_prefix, make_batch_metadata_key, make_data_key, generate_data_keys,
}
use durastash.BatchManager.Acknowledge.{Acknowledged, acknowledge_batch-Acknowledged}
use durastash.BatchManager.Keys.{
  make_batch_metadata_key-injective, make_data_key_iff, make_data_key-ne-metadata_key,
  batch_prefix-data_key,
}
use durastash.GroupStorage.State.{GroupState, with_lock, release, in_world}
use durastash.GroupStorage.Loading.{acknowledge_batch, acknowledge_session}
use durastash.GroupStorage.Queue.{Stored, contents}
use durastash.GroupStorage.Queue.Blocks.{before, Elem-range}
use durastash.GroupStorage.Queue.Reading.{block_keys}

module _ (e : Env) (st : StorageLaws e.storage) (js : JsonLaws e.json) (g sid : Bytes) (gone : ℕ)
    (vs : List Bytes) (s : GroupState e) (q : Stored e st g sid gone vs s) (live : gone < q.count)
    (small : length vs + s.default_batch_size < i64_limit)
    (idle : st.staged s.sessions.world.store ≡ none) where
  open q use {count, batch}

  abbrev size : ℕ
  size = s.default_batch_size

  first : (gone ≤ gone) × (gone < count)
  first = omega (arith, live)

  abbrev id : Bytes
  id = (batch gone).batch_id

  abbrev there :
      (t : Bytes) × (contents e st g sid s (make_batch_metadata_key g sid id) ≡ some t)
      × (batch_metadata_from_json e.json t ≡ some (batch gone))
  there = q.there gone first

  acked :
      Acknowledged e st s.batches js q.set g sid id
        (batch gone)
        s.sessions.world
        (BatchManager.acknowledge_batch e s.batches g sid id s.sessions.world)
  acked =
      acknowledge_batch-Acknowledged e st s.batches js q.set g sid id there.0 (batch gone)
        s.sessions.world q.ready idle there.1 there.2

  abbrev after : GroupState e
  after = record s { sessions = record s.sessions { world = acked.after }; locked = false }

  module _ (done : acked.done ≡ true) where
    -- A key that is neither that of the metadata nor that of one of the data holds what it held.
    kept :
        (j : Bytes)
        → j ≢ make_batch_metadata_key g sid id
        → ((k : ℕ) → j ≢ make_data_key g sid id (pos k))
        → contents e st g sid after j ≡ contents e st g sid s j
    kept j a b = acked.frame done j other
      where
        other : ¬ Elem j (
            make_batch_metadata_key g sid id
            ∷ generate_data_keys g sid id (batch gone).sequence_start (batch gone).sequence_end)
        other (inl p) = a p
        other (inr x) =
            let (k, low, high, p) =
              (Elem-range (λ k. make_data_key g sid id (pos k)) (gone * size) size j).0 (
                rw
                  (block_keys e st g sid gone vs s q gone first
                    (omega (arith, before gone count size first.1, q.needed)))
                  at x) in
            b k p

    metadata_kept :
        (i : ℕ)
        → (gone + 1 ≤ i) × (i < count)
        → contents e st g sid after (make_batch_metadata_key g sid (batch i).batch_id)
          ≡ contents e st g sid s (make_batch_metadata_key g sid (batch i).batch_id)
    metadata_kept i h =
        kept _ (λ p. other (make_batch_metadata_key-injective g sid (batch i).batch_id id p))
          (λ k p.
            make_data_key-ne-metadata_key g sid id (batch i).batch_id (pos k) (q.valid gone first)
              (sym p))
      where
        other : (batch i).batch_id ≢ id
        other p =
            let same : i ≡ gone = q.distinct i gone (omega arith) first p in absurd (omega arith)

    data_kept :
        (i m : ℕ)
        → (gone + 1 ≤ i) × (i < count)
        → contents e st g sid after (make_data_key g sid (batch i).batch_id (pos m))
          ≡ contents e st g sid s (make_data_key g sid (batch i).batch_id (pos m))
    data_kept i m h =
        kept _
          (make_data_key-ne-metadata_key g sid (batch i).batch_id id (pos m)
            (q.valid i (omega arith)))
          other
      where
        other :
            (k : ℕ)
            → make_data_key g sid (batch i).batch_id (pos m) ≢ make_data_key g sid id (pos k)
        other k p =
            let len = ((is_valid_iff (batch i).batch_id).0 (q.valid i (omega arith))).0 in
            let len' = ((is_valid_iff id).0 (q.valid gone first)).0 in
            let (ids, number) =
              (make_data_key_iff g sid (batch i).batch_id id m k (len ∙ sym len')).0 p in
            let same : i ≡ gone = q.distinct i gone (omega arith) first ids in absurd (omega arith)

    only_after :
        (k v : Bytes)
        → starts_with (batch_prefix g sid) k ≡ true
        → contents e st g sid after k ≡ some v
        → (i : ℕ) × ((gone + 1 ≤ i) × (i < count))
          × (k ≡ make_batch_metadata_key g sid (batch i).batch_id)
    only_after k v t c =
        let (i, h, at) = q.only k v t (sym (kept k no_metadata no_data) ∙ c) in
        (i, (later i h.0 at, h.1), at)
      where
        no_metadata : k ≢ make_batch_metadata_key g sid id
        no_metadata p = cc (c, p, acked.gone done (make_batch_metadata_key g sid id) (inl refl))

        no_data : (m : ℕ) → k ≢ make_data_key g sid id (pos m)
        no_data m p = cc (t, p, batch_prefix-data_key g sid id (pos m) (q.valid gone first))

        later :
            (i : ℕ) → gone ≤ i → k ≡ make_batch_metadata_key g sid (batch i).batch_id → gone + 1 ≤ i
        later i low at = elim (dec_lt gone i) [
          | yes p ↦ omega arith
          | no p ↦
              let same : i ≡ gone = omega arith in
              absurd (
                no_metadata
                  (at ∙ ap (λ (n : ℕ). make_batch_metadata_key g sid (batch n).batch_id) same))
        ]

    rest : Stored e st g sid (gone + 1) vs after
    rest = record {
      ready = acked.ready;
      free = refl;
      known = q.known;
      live = q.live;
      set = q.set;
      sized = q.sized;
      counted = q.counted;
      count = count;
      batch = batch;
      filled = q.filled;
      kept = omega (arith, live);
      needed = q.needed;
      begins = λ i h. q.begins i (omega arith);
      ends = λ i h. q.ends i (omega arith);
      valid = λ i h. q.valid i (omega arith);
      distinct = λ i j h k. q.distinct i j (omega arith) (omega arith);
      there = λ i h. let (t, c, read) = q.there i (omega arith) in (t, metadata_kept i h ∙ c, read);
      only = only_after;
      current = λ i h. q.current i (omega arith);
      unopened = q.unopened;
      values = λ i m h a b. data_kept i m h ∙ q.values i m (omega arith) a b;
    }

  -- Acknowledging the first batch leaves the others.
  pub acknowledge-Stored :
      (done : Bool) × (after : GroupState e) × (acknowledge_batch e g id s ≡ (ok done, after))
      × (after.default_batch_size ≡ size)
      × (after.group_current_batch_ids ≡ s.group_current_batch_ids)
      × (done ≡ true
          → (q' : Stored e st g sid (gone + 1) vs after) × (q'.count ≡ count)
            × ((i : ℕ) → q'.batch i ≡ batch i))
  unfolding acknowledge_batch acknowledge_session with_lock release in_world rest
  acknowledge-Stored =
      let run = acked.returns in
      let free = q.free in
      let known = q.known in
      (
        acked.done,
        after,
        ground (arith, run, free, known),
        refl,
        refl,
        λ p. (rest p, refl, λ i. refl),
      )
