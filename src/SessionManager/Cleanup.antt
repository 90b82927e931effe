-- ===== src/SessionManager/Cleanup.antt =====
-- Which sessions `CleanupTimeoutSessions` ends.
use durastash.Prelude.{
  ℕ, ◌+◌, ◌≡◌, ◌≢◌, ◌&&◌, refl, ap, sym, ◌∙◌, arith, Bool, true, false, Bool-cases, Option-cases,
  none, some, List, [], ◌∷◌, ◌++◌, Bytes, codes, ℤ, inl, inr, if◌then◌else◌,
}
use durastash.Prelude.Text.{contains, starts_with, bytes_lt, bytes_eq_refl, bytes_eq_ne}
use durastash.Prelude.Int.{to_i64, ltb_ℤ, sub_i64}
use durastash.Prelude.Order.{bytes_lt_irrefl}
use durastash.Contents.{Contents, Elem, IsAscending}
use durastash.RocksDbStorage.Ranges.{IsAbove-Elem, IsAbove-IsAscending}
use durastash.Outcome.{Outcome, ok}
use durastash.Storage.Contract.{StorageLaws, IsScan}
use durastash.Types.{
  SessionStatus, active, SessionState, terminated, session_state_to_json, session_state_from_json,
}
use durastash.Env.{Env, on_store, on_host, now}
use durastash.Ulid
use durastash.SessionManager.{
  Sessions, in_world, parse_state, is_timed_out, is_active, cleanup_one, cleanup_loop,
  cleanup_timeout_sessions,
}

module _ (timeout_ms time : ℤ) where
  -- Whether a session with this status and last heartbeat is to be ended: it is active, and its last
  -- heartbeat is further back than the timeout.
  unfoldable pub is_overdue : SessionStatus → ℤ → Bool
  is_overdue active last = ltb_ℤ timeout_ms (sub_i64 time last)
  is_overdue terminated last = false

  is_active-is_overdue :
      (status : SessionStatus) (last : ℤ)
      → (is_active status && ltb_ℤ timeout_ms (sub_i64 time last)) ≡ is_overdue status last
  unfolding is_active is_overdue
  is_active-is_overdue active last = refl
  is_active-is_overdue terminated last = refl

  -- The test of the loop is this one.
  is_timed_out-is_overdue :
      (state : SessionState)
      → is_timed_out time timeout_ms state ≡ is_overdue state.status state.last_heartbeat
  unfolding is_timed_out
  is_timed_out-is_overdue state = is_active-is_overdue state.status state.last_heartbeat

module _ (e : Env) (timeout_ms time : ℤ) where
  -- Whether the entry is a session that is ended, and what is stored for it then.
  unfoldable pub is_ended : Bytes → Bytes → Bool
  is_ended k v =
      if contains (codes ":state") k
      then elim (session_state_from_json e.json v) [
        | none ↦ false
        | some state ↦ is_overdue timeout_ms time state.status state.last_heartbeat
      ]
      else false

  unfoldable pub swept : Bytes → Bytes → Bytes
  swept k v = elim (session_state_from_json e.json v) [
    | none ↦ v
    | some state ↦
        if is_ended k v
        then session_state_to_json e.json
            (record state { status = terminated; last_heartbeat = time })
        else v
  ]

  unfoldable pub count_ended : List (Bytes × Bytes) → ℕ
  count_ended [] = 0
  count_ended ((k, v) ∷ l) = (if is_ended k v then 1 else 0) + count_ended l

  -- What is taken for the state of a session can be read.
  abbrev pub IsState : Bytes → Bytes → Type 0
  IsState k v =
      contains (codes ":state") k ≡ true
      → (state : SessionState) × (session_state_from_json e.json v ≡ some state)

module _ (e : Env) (st : StorageLaws e.storage)
    (writes : (k v : Bytes) (store : e.storage.State)
      → st.Ready store
      → (e.storage.put k v store).0 ≡ ok true)
    (timeout_ms time : ℤ) where
  abbrev contents : Sessions e → Contents
  contents s = st.contents s.world.store

  -- One round of the loop.
  record SweptOne (k v : Bytes) (s : Sessions e) (r : Outcome ℕ × Sessions e) : Type 0 where
    pub after : Sessions e
    pub returns : r ≡ (ok (if is_ended e timeout_ms time k v then 1 else 0), after)
    pub ready : st.Ready after.world.store
    pub same_manager : after.manager ≡ s.manager
    pub here : contents after k ≡ some (swept e timeout_ms time k v)
    pub others : (j : Bytes) → j ≢ k → contents after j ≡ contents s j

  -- An entry that is left stays what it was.
  swept_left :
      (k v : Bytes) → is_ended e timeout_ms time k v ≡ false → swept e timeout_ms time k v ≡ v
  unfolding swept
  swept_left k v h = elim (Option-cases (session_state_from_json e.json v)) [
    | inl none_read ↦ ground arith
    | inr (state, read) ↦ ground arith
  ]

  run_left :
      (k v : Bytes) (s : Sessions e)
      → IsState e timeout_ms time k v
      → is_ended e timeout_ms time k v ≡ false
      → cleanup_one e time timeout_ms k v s ≡ (ok 0, s)
  unfolding cleanup_one parse_state is_ended
  run_left k v s readable h = elim (Bool-cases (contains (codes ":state") k)) [
    | inl named ↦
        let (state, read) = readable named in
        let same = is_timed_out-is_overdue timeout_ms time state in ground arith
    | inr other ↦ ground arith
  ]

  state_of :
      (k v : Bytes)
      → is_ended e timeout_ms time k v ≡ true
      → (state : SessionState) × (session_state_from_json e.json v ≡ some state)
        × (contains (codes ":state") k ≡ true)
        × (is_timed_out time timeout_ms state ≡ true)
  unfolding is_ended
  state_of k v h = elim (Bool-cases (contains (codes ":state") k)) [
    | inl named ↦ elim (Option-cases (session_state_from_json e.json v)) [
      | inl none_read ↦ absurd (ground (arith, h))
      | inr (state, read) ↦
          (state, read, named, is_timed_out-is_overdue timeout_ms time state ∙ ground (arith, h))
    ]
    | inr other ↦ absurd (ground (arith, h))
  ]

  sweep_one :
      (k v : Bytes) (s : Sessions e)
      → st.Ready s.world.store
      → contents s k ≡ some v
      → IsState e timeout_ms time k v
      → SweptOne k v s (cleanup_one e time timeout_ms k v s)
  sweep_one k v s r c readable = elim (Bool-cases (is_ended e timeout_ms time k v)) [
    | inr h ↦ record {
      after = s;
      returns = run_left k v s readable h ∙ rw h refl;
      ready = r;
      same_manager = refl;
      here = c ∙ ap some (sym (swept_left k v h));
      others = λ j ne. refl;
    }
    | inl h ↦
        let (state, read, named, late) = state_of k v h in
        let json =
          session_state_to_json e.json
            (record state { status = terminated; last_heartbeat = time }) in
        let wrote = st.put_law k json s.world.store r in
        let result : ok wrote.done ≡ ok true =
          sym (ap (λ (t : Outcome Bool × e.storage.State). t.0) wrote.returns)
          ∙ writes k json s.world.store r in
        let done : wrote.done ≡ true = cc result in
        let ran = wrote.returns in
        let new : swept e timeout_ms time k v ≡ json = unfold swept in ground (arith, read, h) in
        record {
          after = record s { world = record s.world { store = wrote.after } };
          returns =
              unfold cleanup_one parse_state in_world on_store in
              ground (arith, named, read, late, ran, h);
          ready = wrote.ready;
          same_manager = refl;
          here = wrote.holds done k ∙ rw (bytes_eq_refl k, new) refl;
          others = λ j ne. wrote.holds done j ∙ rw (bytes_eq_ne k j (λ p. ne (sym p))) refl;
        }
  ]

  -- The loop over entries with different keys.
  record SweptAll (cleaned : ℕ) (l : List (Bytes × Bytes)) (s : Sessions e)
      (r : Outcome ℕ × Sessions e) : Type 0 where
    pub after : Sessions e
    pub returns : r ≡ (ok (cleaned + count_ended e timeout_ms time l), after)
    pub ready : st.Ready after.world.store
    pub same_manager : after.manager ≡ s.manager
    pub here : (k v : Bytes) → Elem (k, v) l → contents after k ≡ some (swept e timeout_ms time k v)
    pub others : (j : Bytes) → ((v : Bytes) → ¬ Elem (j, v) l) → contents after j ≡ contents s j

  sweep_all :
      (cleaned : ℕ) (l : List (Bytes × Bytes)) (s : Sessions e)
      → st.Ready s.world.store
      → IsAscending l
      → ((k v : Bytes) → Elem (k, v) l → (contents s k ≡ some v) × IsState e timeout_ms time k v)
      → SweptAll cleaned l s (cleanup_loop e time timeout_ms cleaned l s)
  unfolding cleanup_loop count_ended
  sweep_all cleaned [] s r up h = record {
    after = s;
    returns = let same : cleaned + 0 ≡ cleaned = omega arith in rw same refl;
    ready = r;
    same_manager = refl;
    here = λ k v x. elim x [ ];
    others = λ j absent. refl;
  }
  sweep_all cleaned ((k, v) ∷ l) s r up h =
      let one = sweep_one k v s r (h k v (inl refl)).0 (h k v (inl refl)).1 in
      let n : ℕ = if is_ended e timeout_ms time k v then 1 else 0 in
      let apart : (j u : Bytes) → Elem (j, u) l → j ≢ k = λ j u x p.
        let above = IsAbove-Elem k l j u up x in cc (above, ap (bytes_lt k) p, bytes_lt_irrefl k) in
      let rest =
        sweep_all (cleaned + n) l one.after one.ready (IsAbove-IsAscending k l up)
          (λ j u x. (one.others j (apart j u x) ∙ (h j u (inr x)).0, (h j u (inr x)).1)) in
      let first = one.returns in
      let more = rest.returns in
      let head : contents rest.after k ≡ some (swept e timeout_ms time k v) =
        rest.others k (λ u x. apart k u x refl) ∙ one.here in
      let sum : cleaned + n + count_ended e timeout_ms time l
          ≡ cleaned + (n + count_ended e timeout_ms time l) =
        omega arith in
      record {
        after = rest.after;
        returns = ground (arith, first, more, sum);
        ready = rest.ready;
        same_manager = rest.same_manager ∙ one.same_manager;
        here = λ j u x. elim x [
          | inl same ↦
              let at : j ≡ k = ap (λ (t : Bytes × Bytes). t.0) same in
              let held : u ≡ v = ap (λ (t : Bytes × Bytes). t.1) same in rw (at, held) head
          | inr later ↦ rest.here j u later
        ];
        others = λ j absent.
            rest.others j (λ u x. absent u (inr x))
            ∙ one.others j (λ p. absent v (inl (ap (λ (t : Bytes). (t, v)) p)));
      }

-- What a cleanup leaves: every session under the prefix that has timed out is ended, and all else stays.
module _ (e : Env) (st : StorageLaws e.storage) (g : Bytes) (timeout_ms : ℤ) where
  abbrev prefix : Bytes
  prefix = g ++ codes ":"

  pub record Cleaned (s : Sessions e) (r : Outcome ℕ × Sessions e) : Type 0 where
    pub time : ℤ
    pub at_time : time ≡ to_i64 (Ulid.now e.system s.world.host).0
    pub entries : List (Bytes × Bytes)
    pub scanned : IsScan (st.contents s.world.store) prefix entries
    pub after : Sessions e
    pub returns : r ≡ (ok (count_ended e timeout_ms time entries), after)
    pub ready : st.Ready after.world.store
    pub same_manager : after.manager ≡ s.manager
    pub here :
        (k v : Bytes)
        → starts_with prefix k ≡ true
        → st.contents s.world.store k ≡ some v
        → st.contents after.world.store k ≡ some (swept e timeout_ms time k v)
    pub others :
        (k : Bytes)
        → starts_with prefix k ≡ false
        → st.contents after.world.store k ≡ st.contents s.world.store k

  -- Over a ready storage that keeps its contract and whose single writes all succeed, with the
  -- session manager connected, where every value under the prefix of the group whose key contains
  -- ":state" can be read as the state of a session, CleanupTimeoutSessions ends just the sessions
  -- among them that are active and whose last heartbeat is further back than the timeout: their
  -- states are stored as terminated at the time of the cleanup, every other key holds what it
  -- held, and the number of the ended sessions is returned.
  pub cleanup_timeout_sessions_lem :
      (s : Sessions e)
      → st.Ready s.world.store
      → s.manager.storage_set ≡ true
      → ((k v : Bytes) (store : e.storage.State)
          → st.Ready store
          → (e.storage.put k v store).0 ≡ ok true)
      → ((k v : Bytes)
          → starts_with prefix k ≡ true
          → st.contents s.world.store k ≡ some v
          → contains (codes ":state") k ≡ true
          → (state : SessionState) × (session_state_from_json e.json v ≡ some state))
      → Cleaned s (cleanup_timeout_sessions e g timeout_ms s)
  unfolding cleanup_timeout_sessions in_world on_store on_host now
  cleanup_timeout_sessions_lem s r set writes readable =
      let (l, run, scan) = st.scan_prefix_law prefix s.world.store r in
      let t = Ulid.now e.system s.world.host in
      let late : Sessions e = record s { world = record s.world { host = t.1 } } in
      let all =
        sweep_all e st writes timeout_ms (to_i64 t.0) 0 l late r scan.ascending
          (λ k v x. let (starts, c) = (scan.elem_iff k v).0 x in (c, readable k v starts c)) in
      let ran = all.returns in
      record {
        time = to_i64 t.0;
        at_time = refl;
        entries = l;
        scanned = scan;
        after = all.after;
        returns = ground (arith, run, ran);
        ready = all.ready;
        same_manager = all.same_manager;
        here = λ k v starts c. all.here k v ((scan.elem_iff k v).1 (starts, c));
        others = λ k other.
            all.others k (λ v x. let (starts, c) = (scan.elem_iff k v).0 x in cc (starts, other));
      }
