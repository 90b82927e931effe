-- ===== src/GroupStorage/Queue/Acknowledging.antt =====
-- What `AcknowledgeBatch` does to the values of a group, and the values that it loses.
use native.Mathlib.Decide.{dec_lt}
use durastash.Prelude.{
  ℕ, zero, suc, ◌+◌, ◌*◌, ◌≤◌, ◌<◌, ◌≡◌, refl, ap, sym, ◌∙◌, arith, Bool, true, some, none, List,
  [], ◌∷◌, ◌++◌, Bytes, ℤ, pos, length, length-append, drop,
}
use durastash.Prelude.Text.{starts_with}
use durastash.Prelude.Int.{i64_limit, add_i64-pos}
use durastash.Outcome.{Outcome, ok}
use durastash.Storage.Contract.{StorageLaws}
use durastash.Json.{JsonLaws}
use durastash.Maps.{find}
use durastash.Env.{Env}
use durastash.Ulid.{is_valid}
use durastash.BatchManager.{batch_prefix}
use durastash.BatchManager.Keys.{batch_prefix-data_key}
use durastash.GroupStorage.State.{GroupState}
use durastash.GroupStorage.Counters.{given}
use durastash.GroupStorage.Saves.{Saved, save_current}
use durastash.GroupStorage.Saving.{batch_key_of, save}
use durastash.GroupStorage.Loading.{load, acknowledge_batch}
use durastash.GroupStorage.Queue.{Stored, Queue, contents}
use durastash.GroupStorage.Queue.Blocks.{before, next_block, start_of-block}
use durastash.GroupStorage.Queue.Reading.{load-Stored}
use durastash.GroupStorage.Queue.Consuming.{acknowledge-Stored}

drop-all : {A : Type 0} (n : ℕ) (xs : List A) → length xs ≤ n → drop n xs ≡ []
drop-all zero [] h = refl
drop-all zero (x ∷ xs) h = absurd (omega arith)
drop-all (suc n) [] h = refl
drop-all (suc n) (x ∷ xs) h = drop-all n xs (omega arith)

module _ (e : Env) (st : StorageLaws e.storage) (js : JsonLaws e.json) (g sid : Bytes) (gone : ℕ)
    (vs : List Bytes) (s : GroupState e) (q : Queue e st g sid gone vs s)
    (small : length vs + s.default_batch_size < i64_limit)
    (idle : st.staged s.sessions.world.store ≡ none) where
  abbrev size : ℕ
  size = s.default_batch_size

  abbrev id : Bytes
  id = (q.stored.batch gone).batch_id

  -- The first batch is gone, if the acknowledgement reports success, and the others stay.
  pub record Taken (r : Outcome Bool × GroupState e) : Type 0 where
    pub done : Bool
    pub after : GroupState e
    pub returns : r ≡ (ok done, after)
    pub same_size : after.default_batch_size ≡ size
    pub remains :
        done ≡ true
        → (q' : Queue e st g sid (gone + 1) vs after) × (q'.stored.count ≡ q.stored.count)
          × ((i : ℕ) → q'.stored.batch i ≡ q.stored.batch i)

  pub acknowledge-Taken : (gone + 1) * size ≤ length vs → Taken (acknowledge_batch e g id s)
  acknowledge-Taken full =
      let (done, after, run, same, ids, left) =
        acknowledge-Stored e st js g sid gone vs s q.stored live small idle in
      record {
        done = done;
        after = after;
        returns = run;
        same_size = same;
        remains = λ p. (
          record { stored = (left p).0; has_last = last after same (left p) },
          (left p).1,
          (left p).2,
        );
      }
    where
      live : gone < q.stored.count
      live = elim (dec_lt gone q.stored.count) [
        | yes p ↦ p
        | no p ↦ absurd (
            omega (
              arith,
              before q.stored.count (gone + 1) size (omega arith),
              full,
              q.stored.filled,
              q.stored.sized,
            ))
      ]

      last :
          (after : GroupState e)
          → after.default_batch_size ≡ size
          → (x : (q' : Stored e st g sid (gone + 1) vs after) × (q'.count ≡ q.stored.count)
              × ((i : ℕ) → q'.batch i ≡ q.stored.batch i))
          → length vs < x.0.count * after.default_batch_size
          → gone + 1 < x.0.count
      last after same (q', count, kept) =
          rw (count, same)
            (λ room. elim (dec_lt (gone + 1) q.stored.count) [
              | yes p ↦ p
              | no p ↦
                  let equal : gone + 1 ≡ q.stored.count = omega (arith, live) in
                  absurd (omega (arith, room, full, ap (λ (n : ℕ). n * size) equal))
            ])

  -- Over a storage that keeps its contract and has no batch of writes open, with a JSON library
  -- that keeps its laws, where a state holds the values that were saved for a group, the numbers
  -- stay below 2^63 and the first batch is full, `AcknowledgeBatch` of that batch returns, and, if
  -- it reports success, leaves a state that holds the values without those of the batch, and
  -- `Load` returns the values that come after it.
  pub acknowledge-Queue :
      (gone + 1) * size ≤ length vs
      → (done : Bool) × (after : GroupState e) × (acknowledge_batch e g id s ≡ (ok done, after))
        × (done ≡ true
            → Queue e st g sid (gone + 1) vs after
              × (load e g after ≡ (ok (drop ((gone + 1) * size) vs), after)))
  acknowledge-Queue full =
      let took = acknowledge-Taken full in
      (
        took.done,
        took.after,
        took.returns,
        λ p.
            let (q', count, kept) = took.remains p in
            (q', loads took.after took.same_size q'.stored),
      )
    where
      loads :
          (after : GroupState e)
          → after.default_batch_size ≡ size
          → Stored e st g sid (gone + 1) vs after
          → load e g after ≡ (ok (drop ((gone + 1) * size) vs), after)
      loads after same q' =
          load-Stored e st g sid (gone + 1) vs after q' (rw same small)
          ∙ ap (λ (n : ℕ). (ok (drop ((gone + 1) * n) vs), after)) same

-- A value that is saved under an identifier whose batch has been deleted.
module _ (e : Env) (st : StorageLaws e.storage) (g sid id : Bytes) (vs : List Bytes) (v : Bytes)
    (s : GroupState e) (n : ℕ) (q : Stored e st g sid n vs s) (all : n ≡ q.count)
    (room : length vs < n * s.default_batch_size)
    (small : length vs + 1 + s.default_batch_size < i64_limit) (valid : is_valid id ≡ true)
    {r : Outcome Bool × GroupState e} (put : Saved e st g sid id (length vs) v s r)
    (done : put.done ≡ true) where
  longer : length (vs ++ (v ∷ [])) ≡ length vs + 1
  longer = length-append vs (v ∷ [])

  orphan : Stored e st g sid n (vs ++ (v ∷ [])) put.after
  orphan = record {
    ready = put.ready;
    free = put.free;
    known = ap (find g) put.same_sessions ∙ q.known;
    live = q.live;
    set = rw put.same_batches q.set;
    sized = rw put.same_size q.sized;
    counted = ap (given e) put.counted ∙ next ∙ ap pos (sym longer);
    count = n;
    batch = q.batch;
    filled = rw (put.same_size, longer) (omega (arith, room));
    kept = omega arith;
    needed =
        rw (put.same_size, longer)
          (omega (arith, q.needed, ap (λ (k : ℕ). k * s.default_batch_size) all));
    begins = λ i h. absurd (omega arith);
    ends = λ i h. absurd (omega arith);
    valid = λ i h. absurd (omega arith);
    distinct = λ i j h k p. absurd (omega arith);
    there = λ i h. absurd (omega arith);
    only = λ k t p c. absurd (nothing k t p c);
    current = λ i h. absurd (omega arith);
    unopened = rw (put.same_size, put.same_current) (λ i h. q.unopened i (omega (arith, all)));
    values = λ i m h a b. absurd (omega arith);
  }
    where
      next : given e (some (pos (length vs))) ≡ pos (length vs + 1)
      next = unfold given in add_i64-pos (length vs) 1 (omega arith)

      nothing :
          (k t : Bytes)
          → starts_with (batch_prefix g sid) k ≡ true
          → contents e st g sid put.after k ≡ some t
          → ⊥
      nothing k t p c =
          let same =
            put.frame done k
              (λ w. cc (p, w, batch_prefix-data_key g sid id (pos (length vs)) valid)) in
          let (i, h, at) = q.only k t p (sym same ∙ c) in absurd (omega (arith, h, all))

  pub load_orphan : load e g put.after ≡ (ok [], put.after)
  load_orphan =
      load-Stored e st g sid n (vs ++ (v ∷ [])) put.after orphan (rw (put.same_size, longer) small)
      ∙ ap (λ (l : List Bytes). (ok l, put.after))
          (drop-all (n * put.after.default_batch_size) (vs ++ (v ∷ []))
            (rw (put.same_size, longer) (omega (arith, room))))

module _ (e : Env) (st : StorageLaws e.storage) (js : JsonLaws e.json) (g sid : Bytes) (gone : ℕ)
    (vs : List Bytes) (s : GroupState e) (q : Stored e st g sid gone vs s)
    (last : gone + 1 ≡ q.count) (room : length vs < q.count * s.default_batch_size)
    (small : length vs + 1 + s.default_batch_size < i64_limit)
    (idle : st.staged s.sessions.world.store ≡ none) (v : Bytes) where
  -- Over a storage that keeps its contract and has no batch of writes open, with a JSON library
  -- that keeps its laws, where a state holds the values that were saved for a group, the numbers
  -- stay below 2^63, and one batch is left, which has room, `AcknowledgeBatch` of that batch and
  -- `Save` of a value return; if both report success, `Load` finds no value.
  pub acknowledge-save_lost :
      (acked : Bool) × (mid : GroupState e) × (acknowledge_batch e g (q.batch gone).batch_id s
        ≡ (ok acked, mid))
      × (acked ≡ true
          → (saved : Bool) × (after : GroupState e) × (save e g v mid ≡ (ok saved, after))
            × (saved ≡ true → load e g after ≡ (ok [], after)))
  acknowledge-save_lost =
      let (done, mid, run, same, ids, left) =
        acknowledge-Stored e st js g sid gone vs s q (omega (arith, last)) (omega (arith, small))
          idle in
      (done, mid, run, λ p. after_ack mid same ids (left p))
    where
      id : Bytes
      id = (q.batch gone).batch_id

      valid : is_valid (q.batch gone).batch_id ≡ true
      valid = q.valid gone (omega (arith, last))

      -- The next number lies in the batch.
      bounds :
          (gone * s.default_batch_size ≤ length vs)
          × (length vs < gone * s.default_batch_size + s.default_batch_size)
      bounds = omega (
        arith,
        room,
        q.needed,
        next_block gone s.default_batch_size,
        ap (λ (n : ℕ). n * s.default_batch_size) last,
      )

      after_ack :
          (mid : GroupState e)
          → mid.default_batch_size ≡ s.default_batch_size
          → mid.group_current_batch_ids ≡ s.group_current_batch_ids
          → (x : (q' : Stored e st g sid (gone + 1) vs mid) × (q'.count ≡ q.count)
              × ((i : ℕ) → q'.batch i ≡ q.batch i))
          → (saved : Bool) × (after : GroupState e) × (save e g v mid ≡ (ok saved, after))
            × (saved ≡ true → load e g after ≡ (ok [], after))
      after_ack mid same ids (q', count, kept) =
          let low : gone * mid.default_batch_size ≤ length vs = rw same bounds.0 in
          let high : length vs < gone * mid.default_batch_size + mid.default_batch_size =
            rw same bounds.1 in
          let put =
            save_current e st g sid (q.batch gone).batch_id v (length vs) mid q'.ready q'.free
              q'.known q'.live q'.counted (omega arith) (ground (arith, q'.sized))
              (ap (λ (t : ℤ). find (batch_key_of g t) mid.group_current_batch_ids)
                  (start_of-block gone (length vs) mid.default_batch_size q'.sized
                    (rw same (omega arith)) low high)
                ∙ rw (ids, same) (q.current gone (omega (arith, last)))) in
          (
            put.done,
            put.after,
            put.returns,
            λ p.
                load_orphan e st g sid (q.batch gone).batch_id vs v mid (gone + 1) q'
                  (last ∙ sym count)
                  (rw same (omega (arith, bounds.1, next_block gone s.default_batch_size)))
                  (rw same small) valid put p,
          )
