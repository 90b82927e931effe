-- ===== src/GroupStorage/Queue/Restarting.antt =====
-- A group whose session is ended and started again: the batch that was current in the old session.
use durastash.Prelude.{
  ◌*◌, ◌<◌, ◌≡◌, refl, ap, ◌∙◌, arith, Bool, true, false, Bool-cases, inl, inr, none, some, List,
  [], ◌∷◌, Bytes, ℤ, pos,
}
use durastash.Prelude.Text.{starts_with, is_empty, bytes_eq_refl}
use durastash.Prelude.Int.{i64_limit}
use durastash.Outcome.{Outcome, ok}
use durastash.Storage.Contract.{StorageLaws, IsScan}
use durastash.Json.{JsonLaws}
use durastash.System.{IsInRange}
use durastash.Maps.{find, erase, find-erase}
use durastash.Types.{BatchMetadata}
use durastash.Sorting.{sort}
use durastash.Env.{Env}
use durastash.Ulid
use durastash.Ulid.{is_valid}
use durastash.SessionManager
use durastash.SessionManager.{Sessions}
use durastash.BatchManager.{batch_prefix}
use durastash.BatchManager.Keys.{batch_prefix-data_key}
use durastash.GroupStorage.State.{GroupState, with_lock, release, in_sessions}
use durastash.GroupStorage.Lifecycle.{initialize_session, terminate_session}
use durastash.GroupStorage.Saving.{batch_key_of, save}
use durastash.GroupStorage.Saves.{save_current}
use durastash.GroupStorage.Loading.{load, readable_batches}
use durastash.GroupStorage.Loads.{load-Loaded, batch_values}
use durastash.GroupStorage.Counters.{given}
use durastash.GroupStorage.Creates.{is_empty-valid, is_valid-generate}
use durastash.GroupStorage.Shutdowns.{CanEnd, has_none, terminate_nothing, terminate_current}
use durastash.GroupStorage.Queue.{contents}
use durastash.GroupStorage.Queue.Blocks.{start_of-block}
use durastash.GroupStorage.Queue.Opening.{initialize_session-Begun}
use durastash.Calls.Worlds.{IsIdle}

module _ (e : Env) (st : StorageLaws e.storage) (g sid : Bytes) where
  -- No metadata of a batch are stored for the session.
  abbrev pub HasNoBatches : GroupState e → Type 0
  HasNoBatches s =
      (k : Bytes) → starts_with (batch_prefix g sid) k ≡ true → contents e st g sid s k ≡ none

  no_entries :
      (s : GroupState e) (l : List (Bytes × Bytes))
      → HasNoBatches s
      → IsScan (contents e st g sid s) (batch_prefix g sid) l
      → l ≡ []
  no_entries s [] empty scan = refl
  no_entries s ((k, v) ∷ l) empty scan =
      let (t, c) = (scan.elem_iff k v).0 (inl refl) in absurd (cc (c, empty k t))

  -- Without metadata, nothing is loaded.
  load-HasNoBatches :
      (s : GroupState e)
      → st.Ready s.sessions.world.store
      → s.locked ≡ false
      → find g s.group_sessions ≡ some sid
      → HasNoBatches s
      → load e g s ≡ (ok [], s)
  unfolding sort readable_batches batch_values
  load-HasNoBatches s ready free known empty =
      let l = load-Loaded e st g sid s ready free known in
      let found : l.entries ≡ [] = no_entries s l.entries empty l.scanned in
      let none_left : l.batches ≡ [] =
        l.is_sorted
        ∙ ap (sort (λ (b : ℤ × BatchMetadata). b.0)) (l.all_read ∙ ap (readable_batches e) found) in
      l.returns
      ∙ ap
          (λ (bs : List (ℤ × BatchMetadata)).
            (ok (batch_values (contents e st g sid s) g sid bs), s))
          none_left

  -- The first value of a session that finds the current batch of an earlier one.
  save_stale :
      (id v : Bytes) (s : GroupState e)
      → st.Ready s.sessions.world.store
      → s.locked ≡ false
      → find g s.group_sessions ≡ some sid
      → is_empty sid ≡ false
      → find g s.group_sequence_counters ≡ none
      → 0 < s.default_batch_size
      → s.default_batch_size < i64_limit
      → find (batch_key_of g (pos 0)) s.group_current_batch_ids ≡ some id
      → is_valid id ≡ true
      → HasNoBatches s
      → (saved : Bool) × (after : GroupState e) × (save e g v s ≡ (ok saved, after))
        × (saved ≡ true → load e g after ≡ (ok [], after))
  save_stale id v s ready free known live count sized small current valid empty =
      let counted : given e (find g s.group_sequence_counters) ≡ pos 0 =
        rw count (unfold given in refl) in
      let zero : 0 * s.default_batch_size ≡ 0 = omega arith in
      let start =
        start_of-block 0 0 s.default_batch_size sized (omega (arith, small)) (omega arith)
          (omega (arith, sized)) in
      let put =
        save_current e st g sid id v 0 s ready free known live counted (omega arith)
          (ground (arith, sized))
          (ap (λ (t : ℤ). find (batch_key_of g t) s.group_current_batch_ids) (start ∙ ap pos zero)
            ∙ current) in
      (
        put.done,
        put.after,
        put.returns,
        λ d.
            load-HasNoBatches put.after put.ready put.free (ap (find g) put.same_sessions ∙ known)
              (λ k t.
                put.frame d k (λ w. cc (t, w, batch_prefix-data_key g sid id (pos 0) valid))
                ∙ empty k t),
      )

module _ (e : Env) (st : StorageLaws e.storage) (js : JsonLaws e.json) (law : IsInRange e.system)
    (g : Bytes) (s : GroupState e) (idle : IsIdle e st s.sessions.world) (free : s.locked ≡ false)
    (set : s.sessions.manager.storage_set ≡ true) (connected : s.batches.storage_set ≡ true)
    (can : CanEnd e st g s.sessions) where
  -- What `TerminateSession` leaves of the group: neither session nor counter, but its current batches.
  record Left (r : Outcome (Unit {0}) × GroupState e) : Type 0 where
    pub after : GroupState e
    pub returns : r ≡ (ok tt, after)
    pub is_idle : IsIdle e st after.sessions.world
    pub unlocked : after.locked ≡ false
    pub no_counter : find g after.group_sequence_counters ≡ none
    pub same_size : after.default_batch_size ≡ s.default_batch_size
    pub same_current : after.group_current_batch_ids ≡ s.group_current_batch_ids
    pub still_set : after.sessions.manager.storage_set ≡ true
    pub still_connected : after.batches.storage_set ≡ true

  left :
      (u : Sessions e)
      → (SessionManager.terminate_session e g s.sessions ≡ (ok tt, u))
      → IsIdle e st u.world
      → u.manager.storage_set ≡ s.sessions.manager.storage_set
      → Left (terminate_session e g s)
  unfolding terminate_session with_lock release in_sessions
  left u run quiet same = record {
    after = record s {
      sessions = u;
      locked = false;
      group_sessions = erase g s.group_sessions;
      group_sequence_counters = erase g s.group_sequence_counters;
    };
    returns = ground (arith, run, free);
    is_idle = quiet;
    unlocked = refl;
    no_counter = find-erase g g s.group_sequence_counters ∙ rw (bytes_eq_refl g);
    same_size = refl;
    same_current = refl;
    still_set = same ∙ set;
    still_connected = connected;
  }

  terminate_session-Left : Left (terminate_session e g s)
  terminate_session-Left = elim (Bool-cases (has_none e st s.sessions.manager)) [
    | inl h ↦ left s.sessions (terminate_nothing e st g s.sessions h) idle refl
    | inr h ↦
        let (u, run, quiet, none_left, same) = terminate_current e st g s.sessions idle h can in
        left u run quiet same
  ]

  -- Over a ready storage that keeps its contract and has no batch of writes open, with a JSON
  -- library and a generator that keep theirs, with the mutex free, the managers connected, a batch
  -- size above 0 and below 2^63, where the state of the current session can be read, the group has
  -- a current batch with a valid identifier for its first numbers, and no batch is stored for the
  -- session that is generated next: TerminateSession and then `InitializeSession` of the group
  -- return; if the latter reports success, `Save` of a value returns, and if it reports success
  -- too, `Load` finds no value.
  pub initialize-save_lost :
      (id v : Bytes)
      → 0 < s.default_batch_size
      → s.default_batch_size < i64_limit
      → find (batch_key_of g (pos 0)) s.group_current_batch_ids ≡ some id
      → is_valid id ≡ true
      → HasNoBatches e st g
          (Ulid.generate e.system (terminate_session e g s).1.sessions.world.host).0
          (terminate_session e g s).1
      → (mid : GroupState e) × (terminate_session e g s ≡ (ok tt, mid))
        × (opened : Bool) × (begun : GroupState e) × (initialize_session e g mid
            ≡ (ok opened, begun))
        × (opened ≡ true
            → (saved : Bool) × (after : GroupState e) × (save e g v begun ≡ (ok saved, after))
              × (saved ≡ true → load e g after ≡ (ok [], after)))
  initialize-save_lost id v sized small current valid empty =
      let gone = terminate_session-Left in
      let at : (terminate_session e g s).1 ≡ gone.after =
        ap (λ (r : Outcome (Unit {0}) × GroupState e). r.1) gone.returns in
      let nothing : HasNoBatches e st g (Ulid.generate e.system gone.after.sessions.world.host).0
          gone.after =
        rw at at empty in
      let begun =
        initialize_session-Begun e st js law g gone.after gone.is_idle.0 gone.unlocked
          gone.still_set gone.still_connected (rw gone.same_size sized) in
      (
        gone.after,
        gone.returns,
        begun.done,
        begun.after,
        begun.returns,
        λ p.
            save_stale e st g (Ulid.generate e.system gone.after.sessions.world.host).0 id v
              begun.after begun.is_ready begun.unlocked (begun.known p)
              (is_empty-valid _ (is_valid-generate e law gone.after.sessions.world.host))
              (ap (find g) begun.same_counters ∙ gone.no_counter)
              (rw (begun.same_size, gone.same_size) sized)
              (rw (begun.same_size, gone.same_size) small)
              (rw (begun.same_current, gone.same_current) current) valid
              (λ k t. begun.kept p k t ∙ nothing k t),
      )
