-- ===== src/GroupStorage/Queue/Streams.antt =====
-- Values that are saved in a new session and delivered by `LoadBatch`.
use mathlib.Core.List.{append-nil, append_assoc}
use native.Mathlib.Decide.{dec_lt}
use durastash.Prelude.{
  ℕ, zero, suc, ◌+◌, ◌*◌, ◌≤◌, ◌<◌, ◌≡◌, refl, ap, sym, ◌∙◌, arith, Bool, true, false, Bool-cases,
  inl, inr, List, [], ◌∷◌, ◌++◌, Bytes, length, length-append, map, take, drop,
}
use durastash.Prelude.Int.{i64_limit}
use durastash.Outcome.{Outcome, ok}
use durastash.Storage.Contract.{StorageLaws}
use durastash.Json.{JsonLaws}
use durastash.System.{IsInRange}
use durastash.Env.{Env}
use durastash.BatchManager.DataKeys.{range}
use durastash.GroupStorage.State.{GroupState}
use durastash.GroupStorage.Lifecycle.{initialize_session}
use durastash.GroupStorage.Loading.{BatchLoadResult, load_batch}
use durastash.GroupStorage.Queue.Blocks.{before, next_block}
use durastash.GroupStorage.Queue.Delivering.{delivery}
use durastash.GroupStorage.Queue.Runs.{save_all, HasFreshIds}
use durastash.GroupStorage.Queue.Opening.{IsUnused, sid, initialize_session-Queue}
use durastash.GroupStorage.Queue.Slices.{all_values}
use durastash.GroupStorage.Queue.Cursors.{Cursor, save-Cursor, load_batch-Cursor}

take-all : {A : Type 0} (n : ℕ) (xs : List A) → length xs ≤ n → take n xs ≡ xs
take-all zero [] h = refl
take-all zero (x ∷ xs) h = absurd (omega arith)
take-all (suc n) [] h = refl
take-all (suc n) (x ∷ xs) h = ap (◌∷◌ x) (take-all n xs (omega arith))

le_mul : (k size : ℕ) → 0 < size → k ≤ k * size
le_mul zero size h = omega arith
le_mul (suc k) size h = let rest = le_mul k size h in omega (arith, next_block k size)

-- There are not many more batches than values.
few : (count len size : ℕ) → 0 < size → count * size ≤ len + size → count ≤ len + 1
few count len size sized needed = elim (dec_lt (len + 1) count) [
  | yes many ↦ absurd (omega (arith, before (len + 1) count size many, le_mul (len + 1) size sized))
  | no p ↦ omega arith
]

module _ (e : Env) (st : StorageLaws e.storage) (js : JsonLaws e.json) (law : IsInRange e.system)
    (g id : Bytes) where
  save_all-Cursor :
      (gone unread : ℕ) (vs us : List Bytes) (s : GroupState e)
      → Cursor e st g id gone unread us s
      → length us + length vs + s.default_batch_size < i64_limit
      → HasFreshIds e st g id vs s
      → (done : Bool) × (after : GroupState e) × (save_all e g vs s ≡ (ok done, after))
        × (after.default_batch_size ≡ s.default_batch_size)
        × (done ≡ true → Cursor e st g id gone unread (us ++ vs) after)
  unfolding save_all HasFreshIds
  save_all-Cursor gone unread [] us s c small fresh =
      (true, s, refl, refl, λ p. rw (append-nil us) c)
  save_all-Cursor gone unread (v ∷ vs) us s c small (here, later) =
      let (done, mid, run, size, more) =
        save-Cursor e st g id gone unread us s c js law v (omega arith) here in
      elim (Bool-cases done) [
        | inl p ↦
            let long : length (us ++ (v ∷ [])) ≡ length us + 1 = length-append us (v ∷ []) in
            let (all, after, runs, size', rest) =
              save_all-Cursor gone unread vs (us ++ (v ∷ [])) mid (more p)
                (rw (size, long) (omega arith)) (rw run at later) in
            (
              all,
              after,
              ground (arith, run, runs, p),
              size' ∙ size,
              λ h. rw (sym (append_assoc us (v ∷ []) vs)) (rest h),
            )
        | inr p ↦ (false, mid, ground (arith, run, p), size, λ h. absurd (cc h))
      ]

  -- All values are delivered at once, and none of them twice.
  deliver_all :
      (vs : List Bytes) (s : GroupState e)
      → Cursor e st g id 0 0 vs s
      → length vs + s.default_batch_size < i64_limit
      → ((k v : Bytes) (store : e.storage.State)
          → st.Ready store
          → (e.storage.put k v store).0 ≡ ok true)
      → (n : ℕ) → length vs < n
      → (results : List BatchLoadResult) × (after : GroupState e) × (load_batch e g n s
          ≡ (ok results, after))
        × (all_values results ≡ vs)
        × ((load_batch e g n after).0 ≡ ok [])
  deliver_all vs s c small writes n enough =
      let (m, results, after, is_m, returns, are, all, size, end, same) =
        load_batch-Cursor e st g id 0 0 vs s c js n small writes in
      let q = c.queue.stored in
      let bound = few q.count (length vs) s.default_batch_size q.sized q.needed in
      let whole : m ≡ q.count = omega (arith, is_m) in
      let every : take (m * s.default_batch_size) (drop (0 * s.default_batch_size) vs) ≡ vs =
        let none_gone : 0 * s.default_batch_size ≡ 0 = omega arith in
        rw (none_gone, whole) (take-all (q.count * s.default_batch_size) vs q.filled) in
      let (m', results', after', is_m', returns', are', all', size', end', same') =
        load_batch-Cursor e st g id 0 (0 + m) vs after end js n (rw size small) writes in
      let none_left : m' ≡ 0 = omega (arith, is_m', same, whole) in
      let nothing : results' ≡ [] =
        are'
        ∙ ap
            (λ (k : ℕ).
              map (delivery (λ i. (end.queue.stored.batch i).batch_id) after.default_batch_size vs)
                (range (0 + m) k))
            none_left
        ∙ unfold range in refl in
      (
        results,
        after,
        returns,
        all ∙ every,
        ap (λ (r : Outcome (List BatchLoadResult) × GroupState e). r.0) returns' ∙ ap ok nothing,
      )

module _ (e : Env) (st : StorageLaws e.storage) (js : JsonLaws e.json) (law : IsInRange e.system)
    (g : Bytes) (s : GroupState e) (ready : st.Ready s.sessions.world.store)
    (free : s.locked ≡ false) (manager_set : s.sessions.manager.storage_set ≡ true)
    (set : s.batches.storage_set ≡ true) (sized : 0 < s.default_batch_size) where
  abbrev id : Bytes
  id = sid e st js law g s ready free manager_set set sized

  -- Over a ready storage that keeps its contract and whose single writes all succeed, with a JSON
  -- library and a generator that keep theirs, with the mutex free, the managers connected, a batch
  -- size above 0 and numbers that stay below 2^63, for a group without counted values, current
  -- batches or stored batches of the new session, and with identifiers of new batches under which
  -- nothing is stored: `InitializeSession` returns, and if it reports success, then any sequence
  -- of Saves, ended by the first failure, returns, and if all report success, `LoadBatch` of more
  -- batches than there are values returns results whose values are, one after the other, exactly
  -- the saved ones in the order in which they were saved, and the same `LoadBatch` once more
  -- returns nothing.
  pub initialize-save-load_batch :
      (vs : List Bytes) (n : ℕ)
      → IsUnused e st g s id
      → length vs + s.default_batch_size < i64_limit
      → HasFreshIds e st g id vs (initialize_session e g s).1
      → ((k v : Bytes) (store : e.storage.State)
          → st.Ready store
          → (e.storage.put k v store).0 ≡ ok true)
      → length vs < n
      → (opened : Bool) × (mid : GroupState e) × (initialize_session e g s ≡ (ok opened, mid))
        × (opened ≡ true
            → (done : Bool) × (saved : GroupState e) × (save_all e g vs mid ≡ (ok done, saved))
              × (done ≡ true
                  → (results : List BatchLoadResult) × (after : GroupState e) × (load_batch e g n
                        saved
                      ≡ (ok results, after))
                    × (all_values results ≡ vs)
                    × ((load_batch e g n after).0 ≡ ok [])))
  initialize-save-load_batch vs n unused small fresh writes enough =
      let (opened, mid, run, size, holds) =
        initialize_session-Queue e st js law g s ready free manager_set set sized unused in
      (
        opened,
        mid,
        run,
        λ p.
            let (q, none_yet) = holds p in
            let start : Cursor e st g id 0 0 [] mid = record {
              queue = q;
              below = omega arith;
              within = omega arith;
              delivered = λ i h. absurd (omega arith);
              waits = λ i h. absurd (omega (arith, none_yet));
            } in
            let (done, saved, ran, size', more) =
              save_all-Cursor e st js law g id 0 0 vs [] mid start (rw size (omega arith))
                (rw run at fresh) in
            (
              done,
              saved,
              ran,
              λ d.
                  deliver_all e st js law g id vs saved (more d) (rw (size', size) small) writes n
                    enough,
            ),
      )
