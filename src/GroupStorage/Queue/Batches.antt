-- ===== src/GroupStorage/Queue/Batches.antt =====
-- `LoadBatch` on a group that holds values: the batches that are pending, in their order, each once.
use durastash.Prelude.{
  ℕ, ◌+◌, ◌-◌, ◌*◌, ◌<◌, ◌≡◌, refl, ap, sym, ◌∙◌, arith, Bool, true, false, List, [], ◌∷◌, Bytes,
  length, map, take, drop, if◌then◌else◌, ◌==◌,
}
use durastash.Prelude.Int.{i64_limit}
use durastash.Outcome.{Outcome, ok, pure}
use durastash.Storage.Contract.{StorageLaws}
use durastash.Json.{JsonLaws}
use durastash.Env.{Env}
use durastash.BatchManager.{is_pending, get_loadable_batches}
use durastash.BatchManager.Loadable.{on_IsScan, loadable_returns}
use durastash.BatchManager.DataKeys.{range}
use durastash.Contents.{Elem}
use durastash.GroupStorage.State.{GroupState, in_world, with_lock, release}
use durastash.GroupStorage.Loading.{
  BatchLoadResult, load, load_each, load_batch_session, load_batch, readable_batches,
}
use durastash.GroupStorage.Queue.{Queue}
use durastash.GroupStorage.Queue.Reading.{sorted_batches, load-Stored}
use durastash.GroupStorage.Queue.Choosing.{
  pend, pendings, pending_batches-pend, first_batches-pendings,
}
use durastash.GroupStorage.Queue.Waiting.{pendings-Waiting, pendings-drop}
use durastash.GroupStorage.Queue.Delivering.{delivery, deliver_each}

module _ (e : Env) (st : StorageLaws e.storage) (g sid : Bytes) (gone : ℕ) (vs : List Bytes)
    (s : GroupState e) (q : Queue e st g sid gone vs s) where
  open q.stored use {count, batch}

  -- The batches that are still to be loaded, in their order.
  abbrev pub waiting : List ℕ
  waiting = pendings batch (range gone (count - gone))

module _ (e : Env) (st : StorageLaws e.storage) (js : JsonLaws e.json) (g sid : Bytes) (gone : ℕ)
    (vs : List Bytes) (s : GroupState e) (q : Queue e st g sid gone vs s) where
  open q.stored use {count, batch}

  abbrev left : List ℕ
  left = waiting e st g sid gone vs s q

  abbrev ids : List ℕ → List Bytes
  ids is = map (λ i. (batch i).batch_id) is

  choice :
      (n : ℕ)
      → get_loadable_batches e s.batches g sid n s.sessions.world
        ≡ (ok (length (ids (take n left)), ids (take n left)), s.sessions.world)
  choice n =
      let q0 = q.stored in
      let w = s.sessions.world in
      let (l, run, scan) = on_IsScan e st s.batches q0.set g sid w q0.ready in
      let found = readable_batches e l in
      let filtered = pending_batches-pend e l (λ k v x.
        let (t, c) = (scan.elem_iff k v).0 x in
        let (i, h, at) = q0.only k v t c in
        let (u, there, read) = q0.there i h in
        let same : u ≡ v = cc (c, there, at) in (batch i, rw same at read)) in
      let first =
        first_batches-pendings n batch (range gone (count - gone)) found
          (sorted_batches e st g sid gone vs s q0 l scan) in
      loadable_returns e st s.batches q0.set g sid n w l (pend found) run filtered
      ∙ ap (λ (bs : List Bytes). (ok (length bs, bs), w)) first

  skip_empty :
      (bs : List Bytes) (t : GroupState e)
      → (if length bs == 0 then pure [] else load_each e g sid bs) t ≡ load_each e g sid bs t
  unfolding load_each
  skip_empty [] t = refl
  skip_empty (id ∷ bs) t = let full : (length (id ∷ bs) == 0) ≡ false = ground arith in rw full refl

  unlocked : (t : GroupState e) → t.locked ≡ false → record t { locked = false } ≡ t
  unlocked t free = ap (λ (b : Bool). record t { locked = b }) (sym free)

  -- What `LoadBatch` leaves: the batches that it returns are not pending any more, the others stay.
  pub record Handed (n : ℕ) (r : Outcome (List BatchLoadResult) × GroupState e) : Type 0 where
    pub after : GroupState e
    pub returns : r ≡ (
      ok (map (delivery (λ i. (batch i).batch_id) s.default_batch_size vs) (take n left)),
      after,
    )
    pub same_size : after.default_batch_size ≡ s.default_batch_size
    pub remains : Queue e st g sid gone vs after
    pub same_count : remains.stored.count ≡ count
    pub others : (i : ℕ) → ¬ Elem i (take n left) → remains.stored.batch i ≡ batch i
    pub are_loaded :
        (i : ℕ) → Elem i (take n left) → is_pending (remains.stored.batch i).status ≡ false

  pub load_batch-Handed :
      (n : ℕ)
      → length vs + s.default_batch_size < i64_limit
      → ((k v : Bytes) (store : e.storage.State)
          → st.Ready store
          → (e.storage.put k v store).0 ≡ ok true)
      → Handed n (load_batch e g n s)
  load_batch-Handed n small writes =
      let q0 = q.stored in
      let all =
        deliver_each e st js g sid gone vs writes (λ i. (batch i).batch_id) s.default_batch_size
          (take n left) gone s q0 (λ j. refl) refl (omega arith)
          (pendings-Waiting batch count n gone (count - gone) (omega (arith, q0.kept))) small in
      let free = q0.free in
      let known = q0.known in
      let run = choice n in
      let skip = skip_empty (ids (take n left)) (record s { locked = true }) in
      let each = all.returns in
      let open_again = unlocked all.after all.remains.free in
      record {
        after = all.after;
        returns =
            unfold load_batch load_batch_session with_lock release in_world in
            ground (arith, run, free, known, skip, each, open_again);
        same_size = all.same_size;
        remains = record {
          stored = all.remains;
          has_last = rw (all.same_count, all.same_size) q.has_last;
        };
        same_count = all.same_count;
        others = all.others;
        are_loaded = all.are_loaded;
      }

  -- Over a storage that keeps its contract and whose single writes all succeed, with a JSON
  -- library that keeps its laws, where a state holds the values that were saved for a group and
  -- the numbers stay below 2^63, `LoadBatch` returns, of the batches that are pending, as many of
  -- the first as the size admits, in their order and each with its range and its values; it leaves
  -- a state that holds the same values, in which just the other ones are pending, and `Load`
  -- returns what it returned before.
  pub load_batch-Queue :
      (n : ℕ)
      → length vs + s.default_batch_size < i64_limit
      → ((k v : Bytes) (store : e.storage.State)
          → st.Ready store
          → (e.storage.put k v store).0 ≡ ok true)
      → (after : GroupState e) × (load_batch e g n s ≡ (
        ok (map (delivery (λ i. (batch i).batch_id) s.default_batch_size vs) (take n left)),
        after,
      ))
        × (q' : Queue e st g sid gone vs after) × (waiting e st g sid gone vs after q'
            ≡ drop n left)
        × (load e g after ≡ (ok (drop (gone * s.default_batch_size) vs), after))
  load_batch-Queue n small writes =
      let all = load_batch-Handed n small writes in
      let same_count = all.same_count in
      (
        all.after,
        all.returns,
        all.remains,
        rw same_count (
            pendings-drop batch all.remains.stored.batch n gone (count - gone) all.are_loaded
              (λ j h. all.others j)),
        load-Stored e st g sid gone vs all.after all.remains.stored (rw all.same_size small)
            ∙ ap (λ (size : ℕ). (ok (drop (gone * size) vs), all.after)) all.same_size,
      )
