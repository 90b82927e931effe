-- ===== src/GroupStorage/Loads.antt =====
-- What `Load` returns for a group with a session.
use mathlib.Core.List.{Perm}
use durastash.Prelude.{
  ◌≡◌, ◌↔◌, refl, ap, sym, ◌∙◌, arith, inl, inr, none, some, List, [], ◌∷◌, ◌++◌, Bytes, ℤ, true,
  false, Option-cases,
}
use durastash.Prelude.Text.{starts_with}
use durastash.Contents.{Contents, Elem}
use durastash.Outcome.{ok}
use durastash.Storage.Contract.{StorageLaws, IsScan}
use durastash.Maps.{find}
use durastash.Types.{BatchMetadata, batch_metadata_from_json}
use durastash.Sorting.{sort}
use durastash.Sorting.Ordered.{IsSorted, sort-IsSorted, sort-perm}
use durastash.Env.{Env, on_store}
use durastash.BatchManager.{batch_prefix, generate_data_keys}
use durastash.GroupStorage.State.{GroupState, with_lock, release, in_world}
use durastash.GroupStorage.Loading.{read_values, readable_batches, load_batches, load_session, load}

-- The values under the keys that hold one, in the order of the keys.
unfoldable pub values_of : Contents → List Bytes → List Bytes
values_of c [] = []
values_of c (k ∷ ks) = elim (c k) [ none ↦ values_of c ks | some value ↦ value ∷ values_of c ks ]

-- The values of batches, batch by batch, each in the order of its numbers.
unfoldable pub batch_values : Contents → Bytes → Bytes → List (ℤ × BatchMetadata) → List Bytes
batch_values c g sid [] = []
batch_values c g sid ((start, m) ∷ rest) =
    values_of c (generate_data_keys g sid m.batch_id m.sequence_start m.sequence_end)
    ++ batch_values c g sid rest

module _ (e : Env) where
  -- One of the values is the JSON of the metadata, beside its first number.
  abbrev pub HasReadable : List (Bytes × Bytes) → ℤ → BatchMetadata → Type 0
  HasReadable l start m =
      (k : Bytes) × (v : Bytes) × Elem (k, v) l
      × (batch_metadata_from_json e.json v ≡ some m)
      × (m.sequence_start ≡ start)

  HasReadable-weaken :
      (k v : Bytes) (l : List (Bytes × Bytes)) (start : ℤ) (m : BatchMetadata)
      → HasReadable l start m
      → HasReadable ((k, v) ∷ l) start m
  HasReadable-weaken k v l start m (j, u, x, read, at_start) = (j, u, inr x, read, at_start)

  pub readable_batches_skip :
      (k v : Bytes) (l : List (Bytes × Bytes))
      → batch_metadata_from_json e.json v ≡ none
      → readable_batches e ((k, v) ∷ l) ≡ readable_batches e l
  unfolding readable_batches
  readable_batches_skip k v l h = ground arith

  pub readable_batches_keep :
      (k v : Bytes) (l : List (Bytes × Bytes)) (n : BatchMetadata)
      → batch_metadata_from_json e.json v ≡ some n
      → readable_batches e ((k, v) ∷ l) ≡ (n.sequence_start, n) ∷ readable_batches e l
  unfolding readable_batches
  readable_batches_keep k v l n h = ground arith

  readable_batches_sound :
      (l : List (Bytes × Bytes)) (start : ℤ) (m : BatchMetadata)
      → Elem (start, m) (readable_batches e l)
      → HasReadable l start m
  unfolding readable_batches
  readable_batches_sound [] start m x = elim x [ ]
  readable_batches_sound ((k, v) ∷ l) start m x =
      elim (Option-cases (batch_metadata_from_json e.json v)) [
        | inl broken ↦
            HasReadable-weaken k v l start m
              (readable_batches_sound l start m (rw (readable_batches_skip k v l broken) at x))
        | inr (n, read) ↦
            first n read (readable_batches_sound l start m)
              (rw (readable_batches_keep k v l n read) at x)
      ]
    where
      first :
          (n : BatchMetadata)
          → batch_metadata_from_json e.json v ≡ some n
          → (Elem (start, m) (readable_batches e l) → HasReadable l start m)
          → Elem {A = ℤ × BatchMetadata} (start, m) ((n.sequence_start, n) ∷ readable_batches e l)
          → HasReadable ((k, v) ∷ l) start m
      first n read later (inl q) =
          let same : m ≡ n = ap (λ (t : ℤ × BatchMetadata). t.1) q in
          let begins : start ≡ n.sequence_start = ap (λ (t : ℤ × BatchMetadata). t.0) q in
          (
            k,
            v,
            inl refl,
            read ∙ ap some (sym same),
            ap (λ (t : BatchMetadata). t.sequence_start) same ∙ sym begins,
          )
      first n read later (inr y) = HasReadable-weaken k v l start m (later y)

  readable_batches_complete :
      (l : List (Bytes × Bytes)) (start : ℤ) (m : BatchMetadata)
      → HasReadable l start m
      → Elem (start, m) (readable_batches e l)
  unfolding readable_batches
  readable_batches_complete [] start m (j, u, x, read, at_start) = elim x [ ]
  readable_batches_complete ((k, v) ∷ l) start m (j, u, inl q, read, at_start) =
      let same : batch_metadata_from_json e.json v ≡ some m =
        ap (λ (t : Bytes × Bytes). batch_metadata_from_json e.json t.1) (sym q) ∙ read in
      rw (readable_batches_keep k v l m same) (inl (ap (λ (t : ℤ). (t, m)) (sym at_start)))
  readable_batches_complete ((k, v) ∷ l) start m (j, u, inr x, read, at_start) =
      let later = readable_batches_complete l start m (j, u, x, read, at_start) in
      elim (Option-cases (batch_metadata_from_json e.json v)) [
        | inl broken ↦ rw (readable_batches_skip k v l broken) later
        | inr (n, fine) ↦ rw (readable_batches_keep k v l n fine) (inr later)
      ]

  pub readable_batches_iff :
      (l : List (Bytes × Bytes)) (start : ℤ) (m : BatchMetadata)
      → Elem (start, m) (readable_batches e l) ↔ HasReadable l start m
  readable_batches_iff l start m =
      (readable_batches_sound l start m, readable_batches_complete l start m)

module _ (e : Env) (st : StorageLaws e.storage) (g sid : Bytes) where
  abbrev pub contents : GroupState e → Contents
  contents s = st.contents s.sessions.world.store

  pub on_get :
      (k : Bytes) (s : GroupState e)
      → st.Ready s.sessions.world.store
      → in_world (on_store e (e.storage.get k)) s ≡ (ok (contents s k), s)
  unfolding in_world on_store
  on_get k s r = rw (st.get_law k s.sessions.world.store r)

  pub read_values-values_of :
      (ks : List Bytes) (s : GroupState e)
      → st.Ready s.sessions.world.store
      → read_values e ks s ≡ (ok (values_of (contents s) ks), s)
  unfolding read_values values_of
  read_values-values_of [] s r = refl
  read_values-values_of (k ∷ ks) s r = ground (arith, on_get k s r, read_values-values_of ks s r)

  load_batches-batch_values :
      (bs : List (ℤ × BatchMetadata)) (s : GroupState e)
      → st.Ready s.sessions.world.store
      → load_batches e g sid bs s ≡ (ok (batch_values (contents s) g sid bs), s)
  unfolding load_batches batch_values
  load_batches-batch_values [] s r = refl
  load_batches-batch_values ((start, m) ∷ rest) s r = ground (
    arith,
    read_values-values_of (generate_data_keys g sid m.batch_id m.sequence_start m.sequence_end) s r,
    load_batches-batch_values rest s r,
  )

  -- What `Load` returns: the values of all batches of the session whose metadata can be read, in the
  -- order of their first numbers, each batch in the order of its numbers.
  pub record Loaded (s : GroupState e) : Type 0 where
    pub batches : List (ℤ × BatchMetadata)
    pub returns : load e g s ≡ (ok (batch_values (contents s) g sid batches), s)
    pub in_order : IsSorted (λ (b : ℤ × BatchMetadata). b.0) batches
    pub entries : List (Bytes × Bytes)
    pub scanned : IsScan (contents s) (batch_prefix g sid) entries
    pub all : List (ℤ × BatchMetadata)
    pub all_read : all ≡ readable_batches e entries
    pub is_sorted : batches ≡ sort (λ (b : ℤ × BatchMetadata). b.0) all
    pub permuted : Perm batches all
    pub all_iff :
        (start : ℤ) (m : BatchMetadata)
        → Elem (start, m) all ↔ (
            (k : Bytes) × (v : Bytes) × (starts_with (batch_prefix g sid) k ≡ true)
            × (contents s k ≡ some v)
            × (batch_metadata_from_json e.json v ≡ some m)
            × (m.sequence_start ≡ start))

  -- `Load` as it runs: the keys are those of `GenerateDataKeys`, and the order is that of the sort.
  pub load-Loaded :
      (s : GroupState e)
      → st.Ready s.sessions.world.store
      → s.locked ≡ false
      → find g s.group_sessions ≡ some sid
      → Loaded s
  load-Loaded s r free known =
      let (l, run, scan) = st.scan_prefix_law (batch_prefix g sid) s.sessions.world.store r in
      let all = readable_batches e l in
      let bs = sort (λ (b : ℤ × BatchMetadata). b.0) all in
      let held : GroupState e = record s { locked = true } in
      record {
        batches = bs;
        returns =
            unfold load load_session with_lock release in_world on_store in
            ground (arith, run, load_batches-batch_values bs held r);
        in_order = sort-IsSorted (λ (b : ℤ × BatchMetadata). b.0) all;
        entries = l;
        scanned = scan;
        all = all;
        all_read = refl;
        is_sorted = refl;
        permuted = sort-perm (λ (b : ℤ × BatchMetadata). b.0) all;
        all_iff = λ start m. (
          λ x.
              let (k, v, y, read, at_start) = (readable_batches_iff e l start m).0 x in
              let (t, c) = (scan.elem_iff k v).0 y in (k, v, t, c, read, at_start),
          λ (k, v, t, c, read, at_start).
              (readable_batches_iff e l start m).1
                (k, v, (scan.elem_iff k v).1 (t, c), read, at_start),
        );
      }
