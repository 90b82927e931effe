-- ===== src/GroupStorage/Queue/Putting.antt =====
-- A value put under the next number of a batch with room extends the queue.
use native.Mathlib.Decide.{ℕ_discrete}
use durastash.Prelude.{
  ℕ, ◌+◌, ◌*◌, ◌≤◌, ◌<◌, ◌≡◌, ◌≢◌, ap, sym, ◌∙◌, arith, Bool, true, some, none, List, [], ◌∷◌, ◌++◌,
  Bytes, pos, length, length-append, get_or, ltb, if◌then◌else◌, refl,
}
use durastash.Prelude.Text.{starts_with}
use durastash.Prelude.Int.{i64_limit, add_i64-pos}
use durastash.Outcome.{Outcome}
use durastash.Storage.Contract.{StorageLaws}
use durastash.Maps.{find}
use durastash.Env.{Env}
use durastash.BatchManager.{batch_prefix, make_batch_metadata_key, make_data_key}
use durastash.BatchManager.Keys.{
  make_data_key_iff, make_data_key-ne-metadata_key, batch_prefix-data_key,
}
use durastash.Ulid.Validity.{is_valid_iff}
use durastash.GroupStorage.State.{GroupState}
use durastash.GroupStorage.Counters.{given}
use durastash.GroupStorage.Saves.{Saved}
use durastash.GroupStorage.Queue.{Stored, Grows, contents}
use durastash.GroupStorage.Queue.Blocks.{
  before, block_unique, get_or-append_left, get_or-append_last,
}

module _ (e : Env) (st : StorageLaws e.storage) (g sid : Bytes) (gone : ℕ) (vs : List Bytes)
    (v : Bytes) (s : GroupState e) (q : Stored e st g sid gone vs s) (i₀ : ℕ)
    (inside : (gone ≤ i₀) × (i₀ < q.count)) (low : i₀ * s.default_batch_size ≤ length vs)
    (high : length vs < i₀ * s.default_batch_size + s.default_batch_size)
    (small : length vs + 1 < i64_limit) {r : Outcome Bool × GroupState e}
    (put : Saved e st g sid (q.batch i₀).batch_id (length vs) v s r) (done : put.done ≡ true) where
  abbrev size : ℕ
  size = s.default_batch_size

  abbrev new_key : Bytes
  new_key = make_data_key g sid (q.batch i₀).batch_id (pos (length vs))

  abbrev us : List Bytes
  us = vs ++ (v ∷ [])

  longer : length us ≡ length vs + 1
  longer = length-append vs (v ∷ [])

  metadata_kept :
      (i : ℕ)
      → (gone ≤ i) × (i < q.count)
      → contents e st g sid put.after (make_batch_metadata_key g sid (q.batch i).batch_id)
        ≡ contents e st g sid s (make_batch_metadata_key g sid (q.batch i).batch_id)
  metadata_kept i h = put.frame done _ (λ p.
      make_data_key-ne-metadata_key g sid (q.batch i₀).batch_id (q.batch i).batch_id
        (pos (length vs)) (q.valid i₀ inside) (sym p))

  prefix_kept :
      (k : Bytes)
      → starts_with (batch_prefix g sid) k ≡ true
      → contents e st g sid put.after k ≡ contents e st g sid s k
  prefix_kept k t = put.frame done k (λ p. cc (
    t,
    ap (starts_with (batch_prefix g sid)) p,
    batch_prefix-data_key g sid (q.batch i₀).batch_id (pos (length vs)) (q.valid i₀ inside),
  ))

  same_key :
      (i m : ℕ)
      → (gone ≤ i) × (i < q.count)
      → make_data_key g sid (q.batch i).batch_id (pos m) ≡ new_key
      → (i ≡ i₀) × (m ≡ length vs)
  same_key i m h p =
      let len = ((is_valid_iff (q.batch i).batch_id).0 (q.valid i h)).0 in
      let len₀ = ((is_valid_iff (q.batch i₀).batch_id).0 (q.valid i₀ inside)).0 in
      let (id, number) =
        (make_data_key_iff g sid (q.batch i).batch_id (q.batch i₀).batch_id m (length vs)
            (len ∙ sym len₀)).0
          p in
      (q.distinct i i₀ h inside id, number)

  value_at :
      (m : ℕ)
      → m ≢ length vs
      → (if ltb m (length us) then some (get_or us m []) else none)
        ≡ (if ltb m (length vs) then some (get_or vs m []) else none)
  value_at m ne = ground (arith, longer, get_or-append_left [] vs (v ∷ []) m)

  values_after :
      (i m : ℕ)
      → (gone ≤ i) × (i < q.count)
      → i * size ≤ m
      → m < i * size + size
      → contents e st g sid put.after (make_data_key g sid (q.batch i).batch_id (pos m))
        ≡ (if ltb m (length us) then some (get_or us m []) else none)
  values_after i m h a b = elim (ℕ_discrete m (length vs)) [
    | yes p ↦ last p
    | no p ↦
        put.frame done _ (λ k. p (same_key i m h k).1) ∙ q.values i m h a b ∙ sym (value_at m p)
  ]
    where
      last :
          m ≡ length vs
          → contents e st g sid put.after (make_data_key g sid (q.batch i).batch_id (pos m))
            ≡ (if ltb m (length us) then some (get_or us m []) else none)
      last p =
          let same : i ≡ i₀ = block_unique i i₀ m size a b (omega arith) (omega arith) in
          rw (same, p) (put.stored done ∙ ground (arith, longer, get_or-append_last [] v vs))

  next : given e (some (pos (length vs))) ≡ pos (length vs + 1)
  next = unfold given in add_i64-pos (length vs) 1 small

  extended : Stored e st g sid gone us put.after
  extended = record {
    ready = put.ready;
    free = put.free;
    known = ap (find g) put.same_sessions ∙ q.known;
    live = q.live;
    set = rw put.same_batches q.set;
    sized = rw put.same_size q.sized;
    counted = ap (given e) put.counted ∙ next ∙ ap pos (sym longer);
    count = q.count;
    batch = q.batch;
    filled = rw (put.same_size, longer) (omega (arith, before i₀ q.count size inside.1));
    kept = q.kept;
    needed = rw (put.same_size, longer) (omega (arith, q.needed));
    begins = rw put.same_size q.begins;
    ends = rw put.same_size q.ends;
    valid = q.valid;
    distinct = q.distinct;
    there = λ i h. let (t, c, read) = q.there i h in (t, metadata_kept i h ∙ c, read);
    only = λ k t p c. q.only k t p (sym (prefix_kept k p) ∙ c);
    current = rw (put.same_size, put.same_current) q.current;
    unopened = rw (put.same_size, put.same_current) q.unopened;
    values = rw put.same_size values_after;
  }

  pub Saved-Stored :
      (q' : Stored e st g sid gone us put.after) × (q'.count ≡ q.count) × Grows e st g sid q q'
  unfolding extended
  Saved-Stored = (
    extended,
    refl,
    record { longer = omega arith; old = λ i h. refl; new = λ i h. absurd (omega arith) },
  )
