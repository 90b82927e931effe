-- ===== src/GroupStorage/Queue/Cursors.antt =====
-- A group that is consumed in the order of its values: which of its batches were delivered.
use native.Mathlib.Decide.{dec_lt}
use durastash.Prelude.{
  ℕ, ◌+◌, ◌-◌, ◌*◌, ◌≤◌, ◌<◌, ◌≡◌, refl, ap, ◌∙◌, arith, Bool, true, false, none, List, [], ◌∷◌,
  ◌++◌, Bytes, length, map, take, drop, min,
}
use durastash.Prelude.Int.{i64_limit}
use durastash.Outcome.{ok}
use durastash.Storage.Contract.{StorageLaws}
use durastash.Json.{JsonLaws}
use durastash.System.{IsInRange}
use durastash.Env.{Env}
use durastash.BatchManager.{is_pending}
use durastash.BatchManager.DataKeys.{range}
use durastash.GroupStorage.State.{GroupState}
use durastash.GroupStorage.Saving.{save}
use durastash.GroupStorage.Loading.{BatchLoadResult, load_batch, acknowledge_batch}
use durastash.GroupStorage.Queue.{Queue}
use durastash.GroupStorage.Queue.Blocks.{range-append, before}
use durastash.GroupStorage.Queue.Choosing.{pendings}
use durastash.GroupStorage.Queue.Delivering.{delivery}
use durastash.GroupStorage.Queue.Batches.{waiting, load_batch-Handed}
use durastash.GroupStorage.Queue.Acknowledging.{acknowledge-Taken}
use durastash.GroupStorage.Queue.Fifo.{NextIsFresh, save-Grows}
use durastash.GroupStorage.Queue.Slices.{
  all_values, delivery-all_values, take-range, Elem-range_bounds, Elem-range_inside,
  pendings-append, pendings-none, pendings-all,
}

module _ (e : Env) (st : StorageLaws e.storage) (g sid : Bytes) where
  -- The values `vs` were saved for the group. The first `gone` batches have been acknowledged, those up
  -- to `unread` have been delivered, and the others are pending.
  pub record Cursor (gone unread : ℕ) (vs : List Bytes) (s : GroupState e) : Type 0 where
    pub queue : Queue e st g sid gone vs s
    pub below : gone ≤ unread
    pub within : unread ≤ queue.stored.count
    pub delivered :
        (i : ℕ) → (gone ≤ i) × (i < unread) → is_pending (queue.stored.batch i).status ≡ false
    pub waits :
        (i : ℕ)
        → (unread ≤ i) × (i < queue.stored.count)
        → is_pending (queue.stored.batch i).status ≡ true

  module _ (gone unread : ℕ) (vs : List Bytes) (s : GroupState e)
      (c : Cursor gone unread vs s) where
    open c.queue.stored use {count, batch}

    -- The batches that wait are those from the place on.
    waiting-range : waiting e st g sid gone vs s c.queue ≡ range unread (count - unread)
    waiting-range =
        let split : count - gone ≡ (unread - gone) + (count - unread) =
          omega (arith, c.below, c.within) in
        let place : gone + (unread - gone) ≡ unread = omega (arith, c.below) in
        let first = pendings-none batch gone (unread - gone) (λ i h. c.delivered i (omega arith)) in
        let rest =
          pendings-all batch unread (count - unread) (λ i h. c.waits i (omega (arith, c.within))) in
        ap (λ (n : ℕ). pendings batch (range gone n)) split
        ∙ ap (pendings batch) (range-append gone (unread - gone) (count - unread))
        ∙ rw place (
            pendings-append batch (range gone (unread - gone)) (range unread (count - unread))
            ∙ rw (first, rest) refl)

    -- What `Save` does to the batches: where the last one has room, none is created.
    pub save_in_room :
        JsonLaws e.json
        → IsInRange e.system
        → (v : Bytes) → length vs + s.default_batch_size < i64_limit
        → NextIsFresh e st g sid s
        → (done : Bool) × (after : GroupState e) × (save e g v s ≡ (ok done, after))
          × (after.default_batch_size ≡ s.default_batch_size)
          × (done ≡ true
              → (c' : Cursor gone unread (vs ++ (v ∷ [])) after) × (length vs
                    < count * s.default_batch_size
                  → c'.queue.stored.count ≡ count))
    save_in_room js law v small fresh =
        let (done, after, run, same, grown) =
          save-Grows e st js law g sid gone vs v s c.queue small fresh in
        (
          done,
          after,
          run,
          same,
          λ p.
              let (q', more, room) = grown p in
              (
                record {
                  queue = q';
                  below = c.below;
                  within = omega (arith, c.within, more.longer);
                  delivered = λ i h. rw (more.old i (omega (arith, c.within))) (c.delivered i h);
                  waits = λ i h. elim (dec_lt i count) [
                    | yes old ↦ rw (more.old i (omega (arith, c.below))) (c.waits i (omega arith))
                    | no over ↦ more.new i (omega arith)
                  ];
                },
                room,
              ),
        )

    -- A value that is saved joins the pending ones.
    pub save-Cursor :
        JsonLaws e.json
        → IsInRange e.system
        → (v : Bytes) → length vs + s.default_batch_size < i64_limit
        → NextIsFresh e st g sid s
        → (done : Bool) × (after : GroupState e) × (save e g v s ≡ (ok done, after))
          × (after.default_batch_size ≡ s.default_batch_size)
          × (done ≡ true → Cursor gone unread (vs ++ (v ∷ [])) after)
    save-Cursor js law v small fresh =
        let (done, after, run, same, holds) = save_in_room js law v small fresh in
        (done, after, run, same, λ p. (holds p).0)

    -- `LoadBatch` delivers the next values, batch by batch, and moves the place on.
    pub load_batch-Cursor :
        JsonLaws e.json
        → (n : ℕ) → length vs + s.default_batch_size < i64_limit
        → ((k v : Bytes) (store : e.storage.State)
            → st.Ready store
            → (e.storage.put k v store).0 ≡ ok true)
        → (m : ℕ) × (results : List BatchLoadResult) × (after : GroupState e) × (m
            ≡ min n (count - unread))
          × (load_batch e g n s ≡ (ok results, after))
          × (results
              ≡ map (delivery (λ i. (batch i).batch_id) s.default_batch_size vs) (range unread m))
          × (all_values results
              ≡ take (m * s.default_batch_size) (drop (unread * s.default_batch_size) vs))
          × (after.default_batch_size ≡ s.default_batch_size)
          × (c' : Cursor gone (unread + m) vs after) × (c'.queue.stored.count ≡ count)
    load_batch-Cursor js n small writes =
        let m = min n (count - unread) in
        let all = load_batch-Handed e st js g sid gone vs s c.queue n small writes in
        let chosen : take n (waiting e st g sid gone vs s c.queue) ≡ range unread m =
          ap (take n) waiting-range ∙ take-range n unread (count - unread) in
        let bound : m ≤ count - unread = omega arith in
        let loaded : (i : ℕ)
            → (unread ≤ i) × (i < unread + m)
            → is_pending (all.remains.stored.batch i).status ≡ false =
          λ i h. all.are_loaded i (rw chosen (Elem-range_inside unread m i h.0 h.1)) in
        let kept : (i : ℕ)
            → ¬ ((unread ≤ i) × (i < unread + m))
            → all.remains.stored.batch i ≡ batch i =
          λ i out. all.others i (λ x. out (Elem-range_bounds unread m i (rw chosen at x))) in
        let deliver = delivery (λ i. (batch i).batch_id) s.default_batch_size vs in
        (
          m,
          map deliver (range unread m),
          all.after,
          refl,
          all.returns ∙ ap (λ (is : List ℕ). (ok (map deliver is), all.after)) chosen,
          refl,
          delivery-all_values (λ i. (batch i).batch_id) s.default_batch_size vs m unread,
          all.same_size,
          record {
            queue = all.remains;
            below = omega (arith, c.below);
            within = rw all.same_count (omega (arith, c.within, bound));
            delivered = λ i h. elim (dec_lt i unread) [
              | yes before ↦ rw (kept i (λ b. omega arith)) (c.delivered i (omega arith))
              | no over ↦ loaded i (omega arith)
            ];
            waits = λ i h.
                let inside : i < count = rw all.same_count at h.1 in
                rw (kept i (λ b. omega (arith, h.0))) (c.waits i (omega (arith, h.0)));
          },
          all.same_count,
        )

    -- The first batch, once delivered and full, can be acknowledged.
    pub acknowledge-Cursor :
        JsonLaws e.json
        → gone < unread
        → length vs + s.default_batch_size < i64_limit
        → st.staged s.sessions.world.store ≡ none
        → (gone + 1) * s.default_batch_size ≤ length vs
        → (done : Bool) × (after : GroupState e) × (acknowledge_batch e g (batch gone).batch_id s
            ≡ (ok done, after))
          × (after.default_batch_size ≡ s.default_batch_size)
          × (done ≡ true → Cursor (gone + 1) unread vs after)
    acknowledge-Cursor js read small idle full =
        let took = acknowledge-Taken e st js g sid gone vs s c.queue small idle full in
        (
          took.done,
          took.after,
          took.returns,
          took.same_size,
          λ p.
              let (q', same, kept) = took.remains p in
              record {
                queue = q';
                below = omega arith;
                within = omega (arith, same, c.within);
                delivered = λ i h. rw (kept i) (c.delivered i (omega arith));
                waits = λ i h.
                    let inside : i < count = rw same at h.1 in
                    rw (kept i) (c.waits i (omega (arith, h.0)));
              },
        )
