-- ===== src/GroupStorage/ResaveWrites.antt =====
-- The one write of `ResaveBatch`: the values go under the keys of the new batch, and the metadata and
-- the data of the old one are deleted.
use mathlib.Core.List.{append-nil, append_assoc}
use durastash.Prelude.{
  ℕ, zero, suc, ◌+◌, ◌<◌, ◌≡◌, refl, ap, sym, ◌∙◌, arith, Bool, true, Option, none, some, List, [],
  ◌∷◌, ◌++◌, map, Bytes, ℤ, length, get_or, inl, inr,
}
use durastash.Prelude.Text.{bytes_eq_refl, bytes_eq_ne}
use durastash.Contents.{
  Contents, Write, put, delete, apply_write, apply_writes, apply_writes-append, Elem,
}
use durastash.Outcome.{Outcome, ok}
use durastash.Storage.Contract.{StorageLaws}
use durastash.Types.{BatchMetadata}
use durastash.Env.{Env, World, on_store}
use durastash.BatchManager.{make_batch_metadata_key, generate_data_keys}
use durastash.BatchManager.DataKeys.{range}
use durastash.BatchManager.Acknowledge.{deletes, deletes-Elem, deletes-other}
use durastash.GroupStorage.State.{GroupState, in_world}
use durastash.GroupStorage.ResaveKeys.{all_keys}
use durastash.GroupStorage.Resaving.{put_each, delete_each, resave_write}
use durastash.GroupStorage.Queue.Blocks.{Elem-range}

-- The values under the keys, as far as both go.
pub puts : List Bytes → List Bytes → List Write
puts [] vs = []
puts (k ∷ ks) [] = []
puts (k ∷ ks) (v ∷ vs) = put k v ∷ puts ks vs

pub puts-other :
    (ks vs : List Bytes) (c : Contents) (j : Bytes)
    → ¬ Elem j ks
    → apply_writes (puts ks vs) c j ≡ c j
unfolding puts
puts-other [] vs c j absent = refl
puts-other (k ∷ ks) [] c j absent = refl
puts-other (k ∷ ks) (v ∷ vs) c j absent =
    puts-other ks vs (apply_write (put k v) c) j (λ x. absent (inr x))
    ∙ rw (bytes_eq_ne k j (λ p. absent (inl (sym p))))

module _ (key : ℕ → Bytes) (apart : (a b : ℕ) → key a ≡ key b → a ≡ b) where
  pub puts-range :
      (n : ℕ) (vs : List Bytes) (c : Contents) (m : ℕ)
      → m < length vs
      → apply_writes (puts (map key (range n (length vs))) vs) c (key (n + m))
        ≡ some (get_or vs m [])
  unfolding puts range
  puts-range n [] c m h = absurd (omega arith)
  puts-range n (v ∷ vs) c zero h =
      let same : n + 0 ≡ n = omega arith in
      rw same (
        puts-other (map key (range (n + 1) (length vs))) vs (apply_write (put (key n) v) c) (key n)
          later
        ∙ rw bytes_eq_refl)
    where
      later : ¬ Elem (key n) (map key (range (n + 1) (length vs)))
      later x =
          let (k, low, high, p) = (Elem-range key (n + 1) (length vs) (key n)).0 x in
          let same = apart n k p in omega arith
  puts-range n (v ∷ vs) c (suc m) h =
      let next : n + suc m ≡ n + 1 + m = omega arith in
      rw next (puts-range (n + 1) vs (apply_write (put (key n) v) c) m (omega arith))

module _ (e : Env) (st : StorageLaws e.storage) where
  abbrev Ready : GroupState e → Type 0
  Ready s = st.Ready s.sessions.world.store

  abbrev staged : GroupState e → Option (List Write)
  staged s = st.staged s.sessions.world.store

  abbrev contents : GroupState e → Contents
  contents s = st.contents s.sessions.world.store

  abbrev in_store : GroupState e → World e → GroupState e
  in_store s w = record s { sessions = record s.sessions { world = w } }

  -- Adding writes to the open batch.
  abbrev Adds : (r : (Outcome (Unit {0})) × GroupState e) → GroupState e → List Write → Type 0
  Adds r s us =
      (w : World e) × (r ≡ (ok tt, in_store s w))
      × Ready (in_store s w)
      × (staged (in_store s w) ≡ some us)
      × ((j : Bytes) → contents (in_store s w) j ≡ contents s j)

  put_each-staged :
      (ks vs : List Bytes) (s : GroupState e) (ws : List Write)
      → Ready s
      → staged s ≡ some ws
      → Adds (put_each e ks vs s) s (ws ++ puts ks vs)
  unfolding put_each puts on_store in_world
  put_each-staged [] vs s ws r b =
      (s.sessions.world, refl, r, b ∙ ap some (sym (append-nil ws)), λ j. refl)
  put_each-staged (k ∷ ks) [] s ws r b =
      (s.sessions.world, refl, r, b ∙ ap some (sym (append-nil ws)), λ j. refl)
  put_each-staged (k ∷ ks) (v ∷ vs) s ws r b =
      let one = st.put_to_batch_law k v s.sessions.world.store ws r b in
      let (w', run, r', b', same) =
        put_each-staged ks vs (in_store s (record s.sessions.world { store = one.after }))
          (ws ++ (put k v ∷ [])) one.ready one.batch in
      (
        w',
        rw one.returns run,
        r',
        b' ∙ ap some (append_assoc ws (put k v ∷ []) (puts ks vs)),
        λ j. same j ∙ one.holds j,
      )

  delete_each-staged :
      (ks : List Bytes) (s : GroupState e) (ws : List Write)
      → Ready s
      → staged s ≡ some ws
      → Adds (delete_each e ks s) s (ws ++ deletes ks)
  unfolding delete_each deletes on_store in_world
  delete_each-staged [] s ws r b =
      (s.sessions.world, refl, r, b ∙ ap some (sym (append-nil ws)), λ j. refl)
  delete_each-staged (k ∷ ks) s ws r b =
      let one = st.delete_from_batch_law k s.sessions.world.store ws r b in
      let (w', run, r', b', same) =
        delete_each-staged ks (in_store s (record s.sessions.world { store = one.after }))
          (ws ++ (delete k ∷ [])) one.ready one.batch in
      (
        w',
        rw one.returns run,
        r',
        b' ∙ ap some (append_assoc ws (delete k ∷ []) (deletes ks)),
        λ j. same j ∙ one.holds j,
      )

  module _ (g sid id : Bytes) where
    -- What the one write leaves: no batch of writes is open, and, if it reports success, the keys of the
    -- old batch hold nothing, and the other keys what the values made of them.
    pub record Rewrote (m : BatchMetadata) (ks vs : List Bytes) (s : GroupState e)
        (r : Outcome Bool × GroupState e) : Type 0 where
      pub done : Bool
      pub world : World e
      pub returns : r ≡ (ok done, in_store s world)
      pub ready : st.Ready world.store
      pub closed : st.staged world.store ≡ none
      pub gone :
          done ≡ true
          → (j : Bytes) → Elem j (all_keys g sid id m)
          → st.contents world.store j ≡ none
      pub others :
          done ≡ true
          → (j : Bytes) → ¬ Elem j (all_keys g sid id m)
          → st.contents world.store j ≡ apply_writes (puts ks vs) (contents s) j

    pub resave_write_lem :
        (m : BatchMetadata) (new : Bytes) (a b : ℤ) (vs : List Bytes) (s : GroupState e)
        → Ready s
        → staged s ≡ none
        → Rewrote m (generate_data_keys g sid new a b) vs s (resave_write e g sid id m new a b vs s)
    unfolding resave_write on_store in_world deletes
    resave_write_lem m new a b vs s r idle =
        let ks = generate_data_keys g sid new a b in
        let old = generate_data_keys g sid id m.sequence_start m.sequence_end in
        let key = make_batch_metadata_key g sid id in
        let (s1, run1, r1, b1, same1) = st.begin_law s.sessions.world.store r idle in
        let (w2, run2, r2, b2, same2) =
          put_each-staged ks vs (in_store s (record s.sessions.world { store = s1 })) [] r1 b1 in
        let meta = st.delete_from_batch_law key w2.store (puts ks vs) r2 b2 in
        let (w3, run3, r3, b3, same3) =
          delete_each-staged old (in_store s (record w2 { store = meta.after }))
            (puts ks vs ++ (delete key ∷ [])) meta.ready meta.batch in
        let all : (puts ks vs ++ (delete key ∷ [])) ++ deletes old
            ≡ puts ks vs ++ deletes (all_keys g sid id m) =
          append_assoc (puts ks vs) (delete key ∷ []) (deletes old) in
        let wrote =
          st.commit_law w3.store (puts ks vs ++ deletes (all_keys g sid id m)) r3
            (b3 ∙ ap some all) in
        let before : st.contents w3.store ≡ contents s =
          λ i. λ j. (same3 j ∙ meta.holds j ∙ same2 j ∙ same1 j) i in
        let holds : wrote.done ≡ true
            → (j : Bytes)
            → st.contents wrote.after j
              ≡ apply_writes (deletes (all_keys g sid id m))
                  (apply_writes (puts ks vs) (contents s)) j =
          λ d j.
            wrote.holds d j
            ∙ rw before (
                ap (λ (c : Contents). c j)
                  (apply_writes-append (puts ks vs) (deletes (all_keys g sid id m))
                    (contents s))) in
        record {
          done = wrote.done;
          world = record w3 { store = wrote.after };
          returns = rw (run1, run2, meta.returns, run3, wrote.returns);
          ready = wrote.ready;
          closed = wrote.batch;
          gone = λ d j x. holds d j ∙ deletes-Elem (all_keys g sid id m) _ j x;
          others = λ d j x. holds d j ∙ deletes-other (all_keys g sid id m) _ j x;
        }
