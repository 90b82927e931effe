-- ===== src/GroupStorage/Queue/Marking.antt =====
-- A batch that is marked as loaded stays in its place in the queue.
use native.Mathlib.Decide.{ℕ_discrete}
use durastash.Prelude.{
  ℕ, ◌≤◌, ◌<◌, ◌≡◌, ◌≢◌, refl, ap, sym, ◌∙◌, arith, Bool, true, ◌==◌, Bool-cases, inl, inr, some,
  List, Bytes, pos, if◌then◌else◌,
}
use durastash.Prelude.Text.{starts_with, bytes_eq, bytes_eq_iff, bytes_eq_refl}
use durastash.Outcome.{Outcome}
use durastash.Storage.Contract.{StorageLaws}
use durastash.Json.{JsonLaws}
use durastash.Types.{BatchMetadata, loaded, batch_metadata_from_json}
use durastash.Types.RoundTrip.{stored_loaded_at}
use durastash.Env.{Env, World}
use durastash.Ulid.{is_valid}
use durastash.BatchManager.{batch_prefix, make_batch_metadata_key, make_data_key}
use durastash.BatchManager.Metadata.{Marked}
use durastash.BatchManager.Keys.{make_batch_metadata_key-injective, make_data_key-ne-metadata_key}
use durastash.GroupStorage.State.{GroupState}
use durastash.GroupStorage.Queue.{Stored, contents}

module _ (e : Env) (st : StorageLaws e.storage) (js : JsonLaws e.json) (g sid : Bytes) (gone : ℕ)
    (vs : List Bytes) (s : GroupState e) (q : Stored e st g sid gone vs s) (i₀ : ℕ)
    (inside : (gone ≤ i₀) × (i₀ < q.count)) {r : Outcome Bool × World e}
    (marked : Marked e st js s.batches q.set g sid
      (q.batch i₀).batch_id
      (q.batch i₀)
      s.sessions.world
      r)
    (done : marked.done ≡ true) where
  open q use {count, batch}

  abbrev pub with_mark : World e → GroupState e
  with_mark w = record s { sessions = record s.sessions { world = w } }

  abbrev after : GroupState e
  after = with_mark marked.after

  abbrev new : BatchMetadata
  new = stored_loaded_at (record (batch i₀) { status = loaded; loaded_at = marked.time })

  pick : ℕ → BatchMetadata
  pick i = if i == i₀ then new else batch i

  pick-new : pick i₀ ≡ new
  unfolding pick
  pick-new = ground arith

  pick_other : (i : ℕ) → i ≢ i₀ → pick i ≡ batch i
  unfolding pick
  pick_other i h = ground arith

  -- The identifiers and the ranges stay.
  pick_same :
      (i : ℕ)
      → ((pick i).batch_id ≡ (batch i).batch_id)
        × ((pick i).sequence_start ≡ (batch i).sequence_start)
        × ((pick i).sequence_end ≡ (batch i).sequence_end)
  unfolding stored_loaded_at
  pick_same i = elim (ℕ_discrete i i₀) [
    | yes p ↦ rw (p, pick-new) (refl, refl, refl)
    | no p ↦ rw (pick_other i p) (refl, refl, refl)
  ]

  abbrev key : ℕ → Bytes
  key i = make_batch_metadata_key g sid (batch i).batch_id

  data_kept :
      (i m : ℕ)
      → (gone ≤ i) × (i < count)
      → contents e st g sid after (make_data_key g sid (batch i).batch_id (pos m))
        ≡ contents e st g sid s (make_data_key g sid (batch i).batch_id (pos m))
  data_kept i m h = marked.frame done _ (
      make_data_key-ne-metadata_key g sid (batch i).batch_id (batch i₀).batch_id (pos m)
        (q.valid i h))

  there_after :
      (i : ℕ)
      → (gone ≤ i) × (i < count)
      → (t : Bytes) × (contents e st g sid after (make_batch_metadata_key g sid (pick i).batch_id)
          ≡ some t)
        × (batch_metadata_from_json e.json t ≡ some (pick i))
  unfolding stored_loaded_at
  there_after i h = rw (pick_same i).0 (elim (ℕ_discrete i i₀) [
    | yes p ↦ rw (p, pick-new) (marked.json, marked.written done, marked.reads)
    | no p ↦
        let (t, c, read) = q.there i h in
        rw (pick_other i p) (t, marked.frame done (key i) (other p) ∙ c, read)
  ])
    where
      other : i ≢ i₀ → key i ≢ key i₀
      other p same = p (
          q.distinct i i₀ h inside
            (make_batch_metadata_key-injective g sid (batch i).batch_id (batch i₀).batch_id same))

  only_after :
      (k v : Bytes)
      → starts_with (batch_prefix g sid) k ≡ true
      → contents e st g sid after k ≡ some v
      → (i : ℕ) × ((gone ≤ i) × (i < count)) × (k ≡ make_batch_metadata_key g sid (pick i).batch_id)
  only_after k v t c = elim (Bool-cases (bytes_eq k (key i₀))) [
    | inl same ↦ (i₀, inside, (bytes_eq_iff k (key i₀)).0 same ∙ named i₀)
    | inr other ↦
        let (i, h, at) =
          q.only k v t
            (sym (marked.frame done k (λ p. cc (other, p, bytes_eq_refl (key i₀)))) ∙ c) in
        (i, h, at ∙ named i)
  ]
    where
      named : (i : ℕ) → key i ≡ make_batch_metadata_key g sid (pick i).batch_id
      named i = ap (make_batch_metadata_key g sid) (sym (pick_same i).0)

  remains : Stored e st g sid gone vs after
  remains = record {
    ready = marked.ready;
    free = q.free;
    known = q.known;
    live = q.live;
    set = q.set;
    sized = q.sized;
    counted = q.counted;
    count = count;
    batch = pick;
    filled = q.filled;
    kept = q.kept;
    needed = q.needed;
    begins = λ i h. (pick_same i).1 ∙ q.begins i h;
    ends = λ i h. (pick_same i).2 ∙ q.ends i h;
    valid = λ i h. ap is_valid (pick_same i).0 ∙ q.valid i h;
    distinct = λ i j h k p. q.distinct i j h k (sym (pick_same i).0 ∙ p ∙ (pick_same j).0);
    there = there_after;
    only = only_after;
    current = λ i h. q.current i h ∙ ap some (sym (pick_same i).0);
    unopened = q.unopened;
    values = λ i m h a b. rw (pick_same i).0 (data_kept i m h ∙ q.values i m h a b);
  }

  pub Marked-Stored :
      (q' : Stored e st g sid gone vs after) × (q'.count ≡ count)
      × ((i : ℕ) → (q'.batch i).batch_id ≡ (batch i).batch_id)
      × ((i : ℕ) → i ≢ i₀ → q'.batch i ≡ batch i)
      × (q'.batch i₀
          ≡ stored_loaded_at (record (batch i₀) { status = loaded; loaded_at = marked.time }))
  unfolding remains
  Marked-Stored = (remains, refl, λ i. (pick_same i).0, pick_other, pick-new)
