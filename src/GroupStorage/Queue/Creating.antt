-- ===== src/GroupStorage/Queue/Creating.antt =====
-- A batch created for the number after the last full one joins the batches of the queue.
use native.Mathlib.Decide.{ℕ_discrete}
use durastash.Prelude.{
  ℕ, ◌+◌, ◌-◌, ◌*◌, ◌≤◌, ◌<◌, ◌≡◌, ◌≢◌, refl, ap, sym, ◌∙◌, arith, true, some, none, List, [], ◌∷◌,
  Bytes, ℤ, pos, length, get_or, ltb, if◌then◌else◌, Bool-cases, inl, inr, ◌==◌,
}
use durastash.Prelude.Text.{
  starts_with, bytes_eq, bytes_eq_refl, bytes_eq_ne, bytes_eq_iff, decimal-injective,
}
use durastash.Outcome.{Outcome}
use durastash.Storage.Contract.{StorageLaws}
use durastash.Json.{JsonLaws}
use durastash.System.{IsInRange}
use durastash.Maps.{find, assign, find-assign}
use durastash.Types.{BatchMetadata, batch_metadata_from_json}
use durastash.Env.{Env, World}
use durastash.Ulid
use durastash.Ulid.{is_valid}
use durastash.BatchManager.{batch_prefix, make_batch_metadata_key, make_data_key, is_pending}
use durastash.BatchManager.Metadata.{Created, new_metadata}
use durastash.BatchManager.Keys.{
  make_batch_metadata_key-injective, make_data_key-ne-metadata_key, append_cancel,
}
use durastash.GroupStorage.State.{GroupState}
use durastash.GroupStorage.Saving.{batch_key_of}
use durastash.GroupStorage.Creates.{is_valid-generate}
use durastash.GroupStorage.Queue.{Stored, Grows, contents}
use durastash.GroupStorage.Queue.Blocks.{block_unique, next_block}

-- The keys under which the current batches of different ranges are kept differ.
batch_key_of-injective :
    (g : Bytes) (a b : ℕ) → batch_key_of g (pos a) ≡ batch_key_of g (pos b) → a ≡ b
unfolding batch_key_of
batch_key_of-injective g a b h =
    decimal-injective a b (append_cancel (_ ∷ []) _ _ (append_cancel g _ _ h))

module _ (e : Env) (st : StorageLaws e.storage) (g sid : Bytes) where
  -- Nothing is stored for a batch with this identifier.
  pub record IsFresh (id : Bytes) (s : GroupState e) : Type 0 where
    pub no_metadata : contents e st g sid s (make_batch_metadata_key g sid id) ≡ none
    pub no_values : (m : ℕ) → contents e st g sid s (make_data_key g sid id (pos m)) ≡ none

module _ (e : Env) (st : StorageLaws e.storage) (js : JsonLaws e.json) (law : IsInRange e.system)
    (g sid : Bytes) (gone : ℕ) (vs : List Bytes) (s : GroupState e)
    (q : Stored e st g sid gone vs s) where
  abbrev size : ℕ
  size = s.default_batch_size

  abbrev id : Bytes
  id = (Ulid.generate e.system s.sessions.world.host).0

  abbrev first : ℕ
  first = q.count * size

  -- The state after the batch has been created, as far as the queue goes.
  abbrev pub with_batch : World e → GroupState e
  with_batch w = record s {
    sessions = record s.sessions { world = w };
    group_current_batch_ids = assign (batch_key_of g (pos first)) id s.group_current_batch_ids;
  }

  module _ (full : length vs ≡ first) (fresh : IsFresh e st g sid id s)
      {r : Outcome Bytes × World e} (start last : ℤ) (at_start : start ≡ pos first)
      (at_last : last ≡ pos (first + size - 1))
      (made : Created e st js s.batches q.set g sid start last s.sessions.world r)
      (done : made.done ≡ true) where
    abbrev new : BatchMetadata
    new = new_metadata e st js s.batches q.set id start last made.time

    abbrev after : GroupState e
    after = with_batch made.after

    pick : ℕ → BatchMetadata
    pick i = if i == q.count then new else q.batch i

    pick_old : (i : ℕ) → (gone ≤ i) × (i < q.count) → pick i ≡ q.batch i
    unfolding pick
    pick_old i h = ground arith

    pick-new : pick q.count ≡ new
    unfolding pick
    pick-new = ground arith

    -- A fact about each batch follows from the old ones and the new one.
    for_each :
        (P : ℕ → BatchMetadata → Type 0)
        → ((i : ℕ) → (gone ≤ i) × (i < q.count) → P i (q.batch i))
        → P q.count new
        → (i : ℕ) → (gone ≤ i) × (i < q.count + 1)
        → P i (pick i)
    for_each P old here i h = elim (ℕ_discrete i q.count) [
      | yes p ↦ rw (p, pick-new) here
      | no p ↦ rw (pick_old i (omega arith)) (old i (omega arith))
    ]

    new_valid : is_valid id ≡ true
    new_valid = is_valid-generate e law s.sessions.world.host

    old_ne : (i : ℕ) → (gone ≤ i) × (i < q.count) → (q.batch i).batch_id ≢ id
    old_ne i h p = let (t, c, read) = q.there i h in cc (c, fresh.no_metadata, p)

    old_kept :
        (i : ℕ)
        → (gone ≤ i) × (i < q.count)
        → contents e st g sid after (make_batch_metadata_key g sid (q.batch i).batch_id)
          ≡ contents e st g sid s (make_batch_metadata_key g sid (q.batch i).batch_id)
    old_kept i h =
        made.frame done _
          (λ p. old_ne i h (make_batch_metadata_key-injective g sid (q.batch i).batch_id id p))

    data_kept :
        (id' : Bytes) (m : ℕ)
        → is_valid id' ≡ true
        → contents e st g sid after (make_data_key g sid id' (pos m))
          ≡ contents e st g sid s (make_data_key g sid id' (pos m))
    data_kept id' m valid =
        made.frame done _ (make_data_key-ne-metadata_key g sid id' id (pos m) valid)

    current_kept :
        (i : ℕ)
        → i ≢ q.count
        → find (batch_key_of g (pos (i * size))) after.group_current_batch_ids
          ≡ find (batch_key_of g (pos (i * size))) s.group_current_batch_ids
    current_kept i ne =
        find-assign (batch_key_of g (pos (i * size))) (batch_key_of g (pos first)) id
          s.group_current_batch_ids
        ∙ rw (bytes_eq_ne (batch_key_of g (pos first)) (batch_key_of g (pos (i * size))) other)
      where
        other : batch_key_of g (pos first) ≢ batch_key_of g (pos (i * size))
        other p =
            let same : q.count * size ≡ i * size = batch_key_of-injective g first (i * size) p in
            ne (
              block_unique i q.count first size (omega (arith, same)) (omega (arith, same, q.sized))
                (omega arith) (omega (arith, q.sized)))

    distinct_after :
        (i j : ℕ)
        → (gone ≤ i) × (i < q.count + 1)
        → (gone ≤ j) × (j < q.count + 1)
        → (pick i).batch_id ≡ (pick j).batch_id
        → i ≡ j
    distinct_after i j h k p = elim (ℕ_discrete i q.count) [
      | yes a ↦ elim (ℕ_discrete j q.count) [
        | yes b ↦ omega arith
        | no b ↦
            absurd (old_ne j (omega arith) (cc (p, pick-new, pick_old j (omega arith), ap pick a)))
      ]
      | no a ↦ elim (ℕ_discrete j q.count) [
        | yes b ↦
            absurd (old_ne i (omega arith) (cc (p, pick-new, pick_old i (omega arith), ap pick b)))
        | no b ↦
            q.distinct i j (omega arith) (omega arith)
              (cc (p, pick_old i (omega arith), pick_old j (omega arith)))
      ]
    ]

    abbrev new_key : Bytes
    new_key = make_batch_metadata_key g sid id

    only_after :
        (k v : Bytes)
        → starts_with (batch_prefix g sid) k ≡ true
        → contents e st g sid after k ≡ some v
        → (i : ℕ) × ((gone ≤ i) × (i < q.count + 1))
          × (k ≡ make_batch_metadata_key g sid (pick i).batch_id)
    only_after k v t c = elim (Bool-cases (bytes_eq k new_key)) [
      | inl same ↦ (
        q.count,
        omega arith,
        (bytes_eq_iff k new_key).0 same
            ∙ ap (λ (m : BatchMetadata). make_batch_metadata_key g sid m.batch_id) (sym pick-new),
      )
      | inr other ↦
          let (i, h, at) =
            q.only k v t (sym (made.frame done k (λ p. cc (other, bytes_eq_refl new_key))) ∙ c) in
          (
            i,
            omega arith,
            at
                ∙ ap (λ (m : BatchMetadata). make_batch_metadata_key g sid m.batch_id)
                    (sym (pick_old i h)),
          )
    ]

    joined : Stored e st g sid gone vs after
    joined = record {
      ready = made.ready;
      free = q.free;
      known = q.known;
      live = q.live;
      set = q.set;
      sized = q.sized;
      counted = q.counted;
      count = q.count + 1;
      batch = pick;
      filled = omega (arith, q.filled, next_block q.count size);
      kept = omega (arith, q.kept);
      needed = omega (arith, full, next_block q.count size);
      begins = for_each (λ i m. m.sequence_start ≡ pos (i * size)) q.begins at_start;
      ends = for_each (λ i m. m.sequence_end ≡ pos (i * size + size - 1)) q.ends at_last;
      valid = for_each (λ i m. is_valid m.batch_id ≡ true) q.valid new_valid;
      distinct = distinct_after;
      there =
          for_each
            (λ i m.
              (t : Bytes) × (contents e st g sid after (make_batch_metadata_key g sid m.batch_id)
                ≡ some t)
              × (batch_metadata_from_json e.json t ≡ some m))
            (λ i h. let (t, c, read) = q.there i h in (t, old_kept i h ∙ c, read))
            (made.json, made.written done, made.reads);
      only = only_after;
      current =
          for_each
            (λ i m.
              find (batch_key_of g (pos (i * size))) after.group_current_batch_ids
              ≡ some m.batch_id)
            (λ i h. current_kept i (omega arith) ∙ q.current i h)
            (find-assign (batch_key_of g (pos first)) (batch_key_of g (pos first)) id
                s.group_current_batch_ids
              ∙ rw (bytes_eq_refl (batch_key_of g (pos first))) refl);
      unopened = λ i h. current_kept i (omega arith) ∙ q.unopened i (omega arith);
      values = λ i m h.
          for_each
            (λ j b.
              j * size ≤ m
              → m < j * size + size
              → contents e st g sid after (make_data_key g sid b.batch_id (pos m))
                ≡ (if ltb m (length vs) then some (get_or vs m []) else none))
            (λ j k a b. data_kept (q.batch j).batch_id m (q.valid j k) ∙ q.values j m k a b)
            (λ a b. data_kept id m new_valid ∙ fresh.no_values m ∙ ground (arith, full)) i h;
    }

    pub Created-Stored :
        (q' : Stored e st g sid gone vs after) × (q'.count ≡ q.count + 1)
        × ((q'.batch q.count).batch_id ≡ id)
        × Grows e st g sid q q'
    unfolding joined is_pending
    Created-Stored = (
      joined,
      refl,
      ap (λ (m : BatchMetadata). m.batch_id) pick-new,
      record {
        longer = omega arith;
        old = pick_old;
        new = λ i h. let same : i ≡ q.count = omega arith in rw (same, pick-new) refl;
      },
    )
