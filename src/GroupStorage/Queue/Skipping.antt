-- ===== src/GroupStorage/Queue/Skipping.antt =====
-- A value that is saved into a batch after the batch was delivered.
use durastash.Prelude.{
  ℕ, ◌+◌, ◌*◌, ◌<◌, ◌≡◌, refl, ap, ◌∙◌, arith, Bool, true, List, [], ◌∷◌, ◌++◌, Bytes, length,
  length-append, map, drop, ℤ, pos,
}
use durastash.Prelude.Int.{i64_limit}
use durastash.Outcome.{ok}
use durastash.Storage.Contract.{StorageLaws}
use durastash.Json.{JsonLaws}
use durastash.System.{IsInRange}
use durastash.Env.{Env}
use durastash.BatchManager.DataKeys.{range}
use durastash.GroupStorage.State.{GroupState}
use durastash.GroupStorage.Saving.{save, batch_start_of, batch_key_of}
use durastash.GroupStorage.Loading.{BatchLoadResult, load, load_batch}
use durastash.GroupStorage.Queue.Blocks.{block_of_last, start_of-block}
use durastash.GroupStorage.Counters.{given}
use durastash.Maps.{find}
use durastash.GroupStorage.Queue.Reading.{load-Stored}
use durastash.GroupStorage.Queue.Delivering.{delivery}
use durastash.GroupStorage.Queue.Fifo.{NextIsFresh}
use durastash.GroupStorage.Queue.Cursors.{Cursor, save_in_room, load_batch-Cursor}

module _ (e : Env) (st : StorageLaws e.storage) (js : JsonLaws e.json) (law : IsInRange e.system)
    (g sid : Bytes) (gone unread : ℕ) (vs : List Bytes) (s : GroupState e)
    (c : Cursor e st g sid gone unread vs s) where
  open c.queue.stored use {count}

  -- Where the last batch has room, the next value needs no new one.
  room-NextIsFresh :
      length vs < count * s.default_batch_size
      → length vs + s.default_batch_size < i64_limit
      → NextIsFresh e st g sid s
  room-NextIsFresh room small none_current =
      let q = c.queue.stored in
      let (i, last, low, high) =
        block_of_last count (length vs) s.default_batch_size room q.needed in
      let start : batch_start_of (given e (find g s.group_sequence_counters)) s.default_batch_size
          ≡ pos (i * s.default_batch_size) =
        ap (λ (n : ℤ). batch_start_of n s.default_batch_size) q.counted
        ∙ start_of-block i (length vs) s.default_batch_size q.sized small low high in
      let current =
        ap (λ (n : ℤ). find (batch_key_of g n) s.group_current_batch_ids) start
        ∙ q.current i (omega (arith, c.queue.has_last room, last)) in
      absurd (cc (current, none_current))

  -- Over a storage that keeps its contract and whose single writes all succeed, with a JSON
  -- library and a generator that keep theirs, where a state holds the values that were saved for a
  -- group and the numbers stay below 2^63, all its batches have been delivered, and the last one
  -- has room: `Save` of a value returns, and if it reports success, `LoadBatch` returns nothing,
  -- although `Load` returns the value as the last one.
  pub load_batch-save_skipped :
      unread ≡ count
      → length vs < count * s.default_batch_size
      → length vs + 1 + s.default_batch_size < i64_limit
      → ((k v : Bytes) (store : e.storage.State)
          → st.Ready store
          → (e.storage.put k v store).0 ≡ ok true)
      → (v : Bytes) (n : ℕ)
      → (done : Bool) × (mid : GroupState e) × (save e g v s ≡ (ok done, mid))
        × (done ≡ true
            → (after : GroupState e) × (load_batch e g n mid ≡ (ok [], after))
              × (load e g after
                  ≡ (ok (drop (gone * s.default_batch_size) (vs ++ (v ∷ []))), after)))
  load_batch-save_skipped read room small writes v n =
      let (done, mid, run, same, holds) =
        save_in_room e st g sid gone unread vs s c js law v (omega (arith, small))
          (room-NextIsFresh room (omega (arith, small))) in
      (done, mid, run, λ p. after_save mid same (holds p))
    where
      long : length (vs ++ (v ∷ [])) ≡ length vs + 1
      long = length-append vs (v ∷ [])

      after_save :
          (mid : GroupState e)
          → mid.default_batch_size ≡ s.default_batch_size
          → (x : (c' : Cursor e st g sid gone unread (vs ++ (v ∷ [])) mid) × (length vs
                  < count * s.default_batch_size
                → c'.queue.stored.count ≡ count))
          → (after : GroupState e) × (load_batch e g n mid ≡ (ok [], after))
            × (load e g after ≡ (ok (drop (gone * s.default_batch_size) (vs ++ (v ∷ []))), after))
      after_save mid same (c', kept) =
          let fits : length (vs ++ (v ∷ [])) + mid.default_batch_size < i64_limit =
            rw (long, same) small in
          let (m, results, after, is_m, returns, are, all, size, end, last) =
            load_batch-Cursor e st g sid gone unread (vs ++ (v ∷ [])) mid c' js n fits writes in
          let none_left : m ≡ 0 = omega (arith, is_m, kept room, read) in
          let nothing : results ≡ [] =
            are
            ∙ ap
                (λ (k : ℕ).
                  map
                    (delivery (λ i. (c'.queue.stored.batch i).batch_id) mid.default_batch_size
                      (vs ++ (v ∷ [])))
                    (range unread k))
                none_left
            ∙ unfold range in refl in
          (
            after,
            returns ∙ ap (λ (rs : List BatchLoadResult). (ok rs, after)) nothing,
            load-Stored e st g sid gone (vs ++ (v ∷ [])) after end.queue.stored (rw size fits)
                ∙ ap (λ (k : ℕ). (ok (drop (gone * k) (vs ++ (v ∷ []))), after)) (size ∙ same),
          )
