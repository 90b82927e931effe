-- ===== src/GroupStorage/Queue/Fifo.antt =====
-- `Save` puts a value at the end of the queue.
use native.Mathlib.Decide.{dec_lt}
use durastash.Prelude.{
  ℕ, ◌+◌, ◌*◌, ◌≤◌, ◌<◌, ◌≡◌, refl, ap, ◌∙◌, arith, Bool, true, false, Bool-cases, none, List, [],
  ◌∷◌, ◌++◌, Bytes, ℤ, pos, length, inl, inr, ◌==◌,
}
use durastash.Prelude.Int.{i64_limit}
use durastash.Outcome.{Outcome, ok}
use durastash.Storage.Contract.{StorageLaws}
use durastash.Json.{JsonLaws}
use durastash.System.{IsInRange}
use durastash.Maps.{find, assign}
use durastash.Env.{Env, World}
use durastash.Ulid
use durastash.GroupStorage.State.{GroupState}
use durastash.GroupStorage.Saving.{batch_key_of, batch_start_of, batch_end_of, save}
use durastash.GroupStorage.Counters.{given}
use durastash.GroupStorage.Saves.{Saved, save_current}
use durastash.GroupStorage.Creates.{Filled, save_first}
use durastash.GroupStorage.Queue.{Stored, Queue, Grows}
use durastash.GroupStorage.Queue.Blocks.{block_of_last, start_of-block, end_of-block}
use durastash.GroupStorage.Queue.Creating.{IsFresh, with_batch, Created-Stored}
use durastash.GroupStorage.Queue.Putting.{Saved-Stored}

module _ (e : Env) (st : StorageLaws e.storage) (g sid : Bytes) where
  -- If the next number of the group has no batch, nothing is stored under the identifier that will be
  -- generated for one.
  abbrev pub NextIsFresh : GroupState e → Type 0
  NextIsFresh s =
      find
          (batch_key_of g
            (batch_start_of (given e (find g s.group_sequence_counters)) s.default_batch_size))
          s.group_current_batch_ids
        ≡ none
      → IsFresh e st g sid (Ulid.generate e.system s.sessions.world.host).0 s

module _ (e : Env) (st : StorageLaws e.storage) (g sid : Bytes) {gone : ℕ} {vs us ws : List Bytes}
    {s t u : GroupState e} (q : Stored e st g sid gone vs s) (r : Stored e st g sid gone us t)
    (p : Stored e st g sid gone ws u) where
  pub Grows-trans : Grows e st g sid q r → Grows e st g sid r p → Grows e st g sid q p
  Grows-trans a b = record {
    longer = omega (arith, a.longer, b.longer);
    old = λ i h. b.old i (omega (arith, a.longer)) ∙ a.old i h;
    new = λ i h. elim (dec_lt i r.count) [
      | yes below ↦ rw (b.old i (omega (arith, q.kept))) (a.new i (omega arith))
      | no over ↦ b.new i (omega arith)
    ];
  }

module _ (e : Env) (st : StorageLaws e.storage) (js : JsonLaws e.json) (law : IsInRange e.system)
    (g sid : Bytes) (gone : ℕ) (vs : List Bytes) (v : Bytes) (s : GroupState e)
    (q : Queue e st g sid gone vs s) (small : length vs + s.default_batch_size < i64_limit) where
  open q.stored use {count, batch}

  abbrev size : ℕ
  size = s.default_batch_size

  Extends : Outcome Bool × GroupState e → Type 0
  Extends r =
      (done : Bool) × (after : GroupState e) × (r ≡ (ok done, after))
      × (after.default_batch_size ≡ size)
      × (done ≡ true
          → (q' : Queue e st g sid gone (vs ++ (v ∷ [])) after) × Grows e st g sid q.stored
              q'.stored
            × (length vs < count * size → q'.stored.count ≡ count))

  sized : (size == 0) ≡ false
  sized = ground (arith, q.stored.sized)

  -- The last batch has room.
  with_room : length vs < count * size → Extends (save e g v s)
  unfolding Extends
  with_room room =
      let (i, last, low, high) = block_of_last count (length vs) size room q.stored.needed in
      let inside : (gone ≤ i) × (i < count) = omega (arith, q.has_last room) in
      let put =
        save_current e st g sid (batch i).batch_id v (length vs) s q.stored.ready q.stored.free
          q.stored.known q.stored.live q.stored.counted (omega (arith, small, q.stored.sized)) sized
          (ap (λ (t : ℤ). find (batch_key_of g t) s.group_current_batch_ids)
              (start_of-block i (length vs) size q.stored.sized small low high)
            ∙ q.stored.current i inside) in
      (
        put.done,
        put.after,
        put.returns,
        put.same_size,
        λ done.
            let (q', same, more) =
              Saved-Stored e st g sid gone vs v s q.stored i inside low high
                (omega (arith, small, q.stored.sized)) put done in
            (
              record { stored = q'; has_last = λ _. omega (arith, same, inside.0, inside.1) },
              more,
              λ _. same,
            ),
      )

  -- All batches are full: a new one is created.
  module _ (full : length vs ≡ count * size) (fresh : NextIsFresh e st g sid s) where
    abbrev id : Bytes
    id = (Ulid.generate e.system s.sessions.world.host).0

    at_start : batch_start_of (pos (length vs)) size ≡ pos (count * size)
    at_start =
        start_of-block count (length vs) size q.stored.sized small (omega arith)
          (omega (arith, q.stored.sized))

    none_current :
        find (batch_key_of g (batch_start_of (pos (length vs)) size)) s.group_current_batch_ids
        ≡ none
    none_current =
        ap (λ (t : ℤ). find (batch_key_of g t) s.group_current_batch_ids) at_start
        ∙ q.stored.unopened count (omega arith)

    -- A value stored in the batch that has just been created.
    stored_in :
        (w : World e) {r : Outcome Bool × GroupState e}
        → Filled e st js law g sid v (length vs) s id w r
        → (id' : Bytes) → id' ≡ id
        → Saved e st g sid id' (length vs) v (with_batch e st js law g sid gone vs s q.stored w) r
    stored_in w f id' same = rw same (record {
      done = f.done;
      after = f.after;
      returns = f.returns;
      ready = f.ready;
      free = f.free;
      counted = f.counted;
      same_staged = f.same_staged;
      same_sessions = f.same_sessions;
      same_current =
          f.current
          ∙ ap (λ (t : ℤ). assign (batch_key_of g t) id s.group_current_batch_ids) at_start;
      same_size = f.same_size;
      same_batches = f.same_batches;
      same_manager = f.same_manager;
      stored = f.stored;
      frame = f.frame;
    })

    with_new : Extends (save e g v s)
    unfolding Extends
    with_new =
        let began =
          save_first e st js law g sid v (length vs) s q.stored.set q.stored.ready q.stored.free
            q.stored.known q.stored.live q.stored.counted (omega (arith, small, q.stored.sized))
            sized none_current in
        let made = began.batch in
        elim (Bool-cases made.done) [
          | inl done ↦
              let (q', more, newest, grown) =
                Created-Stored e st js law g sid gone vs s q.stored full
                  (fresh (
                    ap
                      (λ (t : ℤ).
                        find (batch_key_of g (batch_start_of t size)) s.group_current_batch_ids)
                      q.stored.counted
                    ∙ none_current))
                  (batch_start_of (pos (length vs)) size)
                  (batch_end_of (batch_start_of (pos (length vs)) size) size) at_start
                  (end_of-block count (length vs) size q.stored.sized small (omega arith)
                    (omega (arith, q.stored.sized)))
                  made done in
              let put = stored_in made.after (began.filled done) (q'.batch count).batch_id newest in
              (
                put.done,
                put.after,
                put.returns,
                put.same_size,
                λ p.
                    let (q'', same, put_in) =
                      Saved-Stored e st g sid gone vs v
                        (with_batch e st js law g sid gone vs s q.stored made.after) q' count
                        (omega (arith, q.stored.kept, more)) (omega arith)
                        (omega (arith, q.stored.sized)) (omega (arith, small, q.stored.sized)) put
                        p in
                    (
                      record {
                        stored = q'';
                        has_last = λ _. omega (arith, same, more, q.stored.kept);
                      },
                      Grows-trans e st g sid q.stored q' q'' grown put_in,
                      λ room. absurd (omega (arith, full, room)),
                    ),
              )
          | inr refused ↦ (false, _, began.refused refused, refl, λ p. absurd (cc p))
        ]

  -- The same, with the batches: the old ones stay, and one that is created is pending.
  pub save-Grows :
      NextIsFresh e st g sid s
      → (done : Bool) × (after : GroupState e) × (save e g v s ≡ (ok done, after))
        × (after.default_batch_size ≡ s.default_batch_size)
        × (done ≡ true
            → (q' : Queue e st g sid gone (vs ++ (v ∷ [])) after) × Grows e st g sid q.stored
                q'.stored
              × (length vs < count * size → q'.stored.count ≡ count))
  unfolding Extends
  save-Grows fresh = elim (dec_lt (length vs) (count * size)) [
    | yes room ↦ with_room room
    | no p ↦ with_new (omega (arith, q.stored.filled)) fresh
  ]

  -- With a JSON library and a generator that keep their contract and an identifier for a new batch
  -- under which nothing is stored, where a state holds a list of values for a group and the
  -- numbers stay below 2^63, `Save` returns, leaves the batch size, and, if it reports success,
  -- leaves a state that holds the list with the new value at its end, whether the last batch had
  -- room or a new one was created.
  pub save-Queue :
      NextIsFresh e st g sid s
      → (done : Bool) × (after : GroupState e) × (save e g v s ≡ (ok done, after))
        × (after.default_batch_size ≡ s.default_batch_size)
        × (done ≡ true → Queue e st g sid gone (vs ++ (v ∷ [])) after)
  save-Queue fresh =
      let (done, after, run, same, more) = save-Grows fresh in
      (done, after, run, same, λ p. (more p).0)
