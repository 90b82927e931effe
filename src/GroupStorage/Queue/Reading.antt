-- ===== src/GroupStorage/Queue/Reading.antt =====
-- What `Load` returns for a group that holds values: the values, in the order in which they were saved.
use durastash.Prelude.{
  ℕ, zero, suc, ◌+◌, ◌-◌, ◌*◌, ◌≤◌, ◌<◌, ◌≡◌, ◌≢◌, inl, inr, refl, ap, sym, ◌∙◌, arith, true, some,
  List, [], ◌∷◌, map, min, Bytes, ℤ, pos, length, drop, get_or, Option-cases, lt→ltb,
}
use durastash.Prelude.Text.{bytes_lt, starts_with}
use durastash.Prelude.Int.{i64_limit, ltb_ℤ}
use durastash.Prelude.Order.{bytes_lt_irrefl}
use durastash.Contents.{Elem, IsAscending}
use durastash.RocksDbStorage.Ranges.{IsAbove-Elem, IsAbove-IsAscending}
use durastash.Outcome.{ok}
use durastash.Storage.Contract.{StorageLaws, IsScan}
use durastash.Sorting.{sort}
use durastash.Sorting.Ordered.{sort-IsSorted}
use durastash.Sorting.Strict.{
  All-of_Elem, AreApart, IsStrict, sort-AreApart, sort-Elem, IsSorted-IsStrict, IsStrict-unique,
}
use durastash.Types.{BatchMetadata, batch_metadata_from_json}
use durastash.Env.{Env}
use durastash.BatchManager.{
  batch_prefix, make_batch_metadata_key, make_data_key, generate_data_keys,
}
use durastash.BatchManager.DataKeys.{range, keys_of, generate_data_keys-keys}
use durastash.BatchManager.Keys.{batch_prefix-metadata_key}
use durastash.GroupStorage.State.{GroupState}
use durastash.GroupStorage.Loading.{load, readable_batches}
use durastash.GroupStorage.Loads.{
  values_of, batch_values, Loaded, load-Loaded, readable_batches_iff, readable_batches_skip,
  readable_batches_keep, HasReadable,
}
use durastash.GroupStorage.Queue.{Stored, contents}
use durastash.GroupStorage.Queue.Blocks.{
  before, next_block, block_unique, range-split, map-append, Elem-range, get_or-range_from,
  values_of-range,
}

abbrev pub start_of : ℤ × BatchMetadata → ℤ
start_of b = b.0

module _ (e : Env) where
  -- The batches of a scan are apart if entries whose batches start alike have the same key.
  readable_batches-AreApart :
      (l : List (Bytes × Bytes))
      → IsAscending l
      → ((k v j u : Bytes) (m n : BatchMetadata)
          → Elem (k, v) l
          → Elem (j, u) l
          → batch_metadata_from_json e.json v ≡ some m
          → batch_metadata_from_json e.json u ≡ some n
          → m.sequence_start ≡ n.sequence_start
          → k ≡ j)
      → AreApart start_of (readable_batches e l)
  readable_batches-AreApart [] up same = unfold readable_batches in tt
  readable_batches-AreApart ((k, v) ∷ l) up same =
      let rest =
        readable_batches-AreApart l (IsAbove-IsAscending k l up)
          (λ k v j u m n x y. same k v j u m n (inr x) (inr y)) in
      elim (Option-cases (batch_metadata_from_json e.json v)) [
        | inl broken ↦ rw (readable_batches_skip e k v l broken) rest
        | inr (m, read) ↦ rw (readable_batches_keep e k v l m read) (
          All-of_Elem (λ b. m.sequence_start ≢ b.0) (readable_batches e l)
              (λ b x q. first m read b.0 b.1 q ((readable_batches_iff e l b.0 b.1).0 x)),
          rest,
        )
      ]
    where
      first :
          (m : BatchMetadata)
          → batch_metadata_from_json e.json v ≡ some m
          → (start : ℤ) (n : BatchMetadata) → m.sequence_start ≡ start
          → HasReadable e l start n
          → ⊥
      first m read start n q (j, u, x, read', at_start) =
          let alike = same k v j u m n (inl refl) (inr x) read read' (q ∙ sym at_start) in
          let above = IsAbove-Elem k l j u up x in
          cc (above, ap (bytes_lt k) (sym alike), bytes_lt_irrefl k)

module _ (e : Env) (st : StorageLaws e.storage) (g sid : Bytes) (gone : ℕ) (vs : List Bytes)
    (s : GroupState e) (q : Stored e st g sid gone vs s) where
  open q use {count, batch}

  abbrev size : ℕ
  size = s.default_batch_size

  abbrev pub entry : ℕ → ℤ × BatchMetadata
  entry i = ((batch i).sequence_start, batch i)

  starts_apart :
      (i j : ℕ)
      → (gone ≤ i) × (i < count)
      → (gone ≤ j) × (j < count)
      → (batch i).sequence_start ≡ (batch j).sequence_start
      → i ≡ j
  starts_apart i j h k p =
      let same : pos (i * size) ≡ pos (j * size) = sym (q.begins i h) ∙ p ∙ q.begins j k in
      let equal : i * size ≡ j * size = cc same in
      block_unique i j (i * size) size (omega arith) (omega (arith, q.sized)) (omega (arith, equal))
        (omega (arith, equal, q.sized))

  entries-IsStrict :
      (n i : ℕ) → gone ≤ i → i + n ≤ count → IsStrict start_of (map entry (range i n))
  unfolding range
  entries-IsStrict zero i low h = tt
  entries-IsStrict (suc n) i low h = (
    All-of_Elem (λ b. ltb_ℤ (entry i).0 b.0 ≡ true) (map entry (range (i + 1) n))
        (λ b x. above b ((Elem-range entry (i + 1) n b).0 x)),
    entries-IsStrict n (i + 1) (omega arith) (omega arith),
  )
    where
      above :
          (b : ℤ × BatchMetadata)
          → (j : ℕ) × (i + 1 ≤ j) × (j < i + 1 + n) × (b ≡ entry j)
          → ltb_ℤ (entry i).0 b.0 ≡ true
      above b (j, p, r, same) =
          let start : b.0 ≡ pos (j * size) =
            ap (λ (t : ℤ × BatchMetadata). t.0) same ∙ q.begins j (omega arith) in
          rw (q.begins i (omega arith), start)
            (lt→ltb (i * size + 0) (j * size + 0)
              (omega (arith, before i j size (omega arith), q.sized)))

  -- The batches that a scan finds are those of the queue, in their order.
  pub sorted_batches :
      (l : List (Bytes × Bytes))
      → IsScan (contents e st g sid s) (batch_prefix g sid) l
      → sort start_of (readable_batches e l) ≡ map entry (range gone (count - gone))
  sorted_batches l scan =
      IsStrict-unique start_of (sort start_of all) (map entry (range gone (count - gone)))
        (IsSorted-IsStrict start_of (sort start_of all) (sort-IsSorted start_of all)
          (sort-AreApart start_of all apart))
        (entries-IsStrict (count - gone) gone (omega arith) (omega (arith, q.kept)))
        (λ b. (to b, from b))
    where
      all : List (ℤ × BatchMetadata)
      all = readable_batches e l

      stored :
          (k v : Bytes) (m : BatchMetadata)
          → starts_with (batch_prefix g sid) k ≡ true
          → contents e st g sid s k ≡ some v
          → batch_metadata_from_json e.json v ≡ some m
          → (i : ℕ) × ((gone ≤ i) × (i < count))
            × (m ≡ batch i)
            × (k ≡ make_batch_metadata_key g sid (batch i).batch_id)
      stored k v m t c read =
          let (i, h, at) = q.only k v t c in
          let (v', c', read') = q.there i h in
          let texts : v ≡ v' = cc (c, c', at) in (i, h, cc (texts, read, read'), at)

      apart : AreApart start_of (readable_batches e l)
      apart = readable_batches-AreApart e l scan.ascending same_key
        where
          same_key :
              (k v j u : Bytes) (m n : BatchMetadata)
              → Elem (k, v) l
              → Elem (j, u) l
              → batch_metadata_from_json e.json v ≡ some m
              → batch_metadata_from_json e.json u ≡ some n
              → m.sequence_start ≡ n.sequence_start
              → k ≡ j
          same_key k v j u m n x y read read' alike =
              let (t, c) = (scan.elem_iff k v).0 x in
              let (t', c') = (scan.elem_iff j u).0 y in
              let (a, h, is_a, at) = stored k v m t c read in
              let (b, h', is_b, at') = stored j u n t' c' read' in
              let same : a ≡ b = starts_apart a b h h' (
                ap (λ (t : BatchMetadata). t.sequence_start) (sym is_a)
                ∙ alike
                ∙ ap (λ (t : BatchMetadata). t.sequence_start) is_b) in
              at ∙ ap (λ (t : ℕ). make_batch_metadata_key g sid (batch t).batch_id) same ∙ sym at'

      to :
          (b : ℤ × BatchMetadata)
          → Elem b (sort start_of all)
          → Elem b (map entry (range gone (count - gone)))
      to b x =
          let (k, v, y, read, at_start) =
            (readable_batches_iff e l b.0 b.1).0 ((sort-Elem start_of b all).0 x) in
          let (t, c) = (scan.elem_iff k v).0 y in
          let (i, h, is_i, at) = stored k v b.1 t c read in
          (Elem-range entry gone (count - gone) b).1 (
            i,
            omega arith,
            omega arith,
            cc (is_i, at_start, ap (λ (t : BatchMetadata). t.sequence_start) is_i),
          )

      from :
          (b : ℤ × BatchMetadata)
          → Elem b (map entry (range gone (count - gone)))
          → Elem b (sort start_of all)
      from b x =
          let (i, p, h, same) = (Elem-range entry gone (count - gone) b).0 x in
          let (v, c, read) = q.there i (omega arith) in
          let key = make_batch_metadata_key g sid (batch i).batch_id in
          let there : Elem (entry i) all =
            (readable_batches_iff e l (batch i).sequence_start (batch i)).1 (
              key,
              v,
              (scan.elem_iff key v).1 (batch_prefix-metadata_key g sid (batch i).batch_id, c),
              read,
              refl,
            ) in
          rw same ((sort-Elem start_of (entry i) all).1 there)

  same_batches : (l : Loaded e st g sid s) → l.batches ≡ map entry (range gone (count - gone))
  same_batches l = l.is_sorted ∙ ap (sort start_of) l.all_read ∙ sorted_batches l.entries l.scanned

  abbrev pub value : ℕ → Bytes
  value m = get_or vs m []

  -- The data keys of a batch are those of its numbers.
  pub block_keys :
      (i : ℕ)
      → (gone ≤ i) × (i < count)
      → i * size + size < i64_limit
      → generate_data_keys g sid (batch i).batch_id (batch i).sequence_start (batch i).sequence_end
        ≡ map (λ k. make_data_key g sid (batch i).batch_id (pos k)) (range (i * size) size)
  unfolding keys_of
  block_keys i h small =
      rw (q.begins i h, q.ends i h)
        (generate_data_keys-keys g sid (batch i).batch_id (i * size) (i * size + size - 1)
            (omega (arith, q.sized))
          ∙ ap (keys_of g sid (batch i).batch_id (i * size)) (omega (arith, q.sized)))

  pub block_values :
      (i : ℕ)
      → (gone ≤ i) × (i < count)
      → i * size + size < i64_limit
      → values_of (contents e st g sid s) (
          generate_data_keys g sid
            (batch i).batch_id
            (batch i).sequence_start
            (batch i).sequence_end)
        ≡ map value (range (i * size) (min size (length vs - i * size)))
  block_values i h small =
      let key : ℕ → Bytes = λ k. make_data_key g sid (batch i).batch_id (pos k) in
      rw (block_keys i h small) (
        values_of-range (contents e st g sid s) vs key size (i * size)
          (λ m a b. q.values i m h a b))

  all_values :
      (n i : ℕ)
      → gone ≤ i
      → i + n ≡ count
      → count * size < i64_limit
      → batch_values (contents e st g sid s) g sid (map entry (range i n))
        ≡ map value (range (i * size) (length vs - i * size))
  unfolding batch_values range
  all_values zero i low h small =
      let last : i ≡ count = omega arith in
      let none_left : length vs - i * size ≡ 0 =
        omega (arith, q.filled, ap (λ (t : ℕ). t * size) last) in
      rw none_left refl
  all_values (suc n) i low h small =
      let here = block_values i (omega arith) (omega (arith, before i count size (omega arith))) in
      let rest = all_values n (i + 1) (omega arith) (omega arith) small in
      let step : (i + 1) * size ≡ i * size + size = next_block i size in
      rw (here, rest, step)
        (sym (
          ap (map value) (range-split (i * size) size (length vs))
          ∙ map-append value (range (i * size) (min size (length vs - i * size)))
              (range (i * size + size) (length vs - (i * size + size)))))

  -- A group loads the values of the batches that were not acknowledged, in their order, and nothing
  -- changes.
  pub load-Stored : length vs + size < i64_limit → load e g s ≡ (ok (drop (gone * size) vs), s)
  load-Stored small =
      let l = load-Loaded e st g sid s q.ready q.free q.known in
      let all : batch_values (contents e st g sid s) g sid l.batches ≡ drop (gone * size) vs =
        ap (batch_values (contents e st g sid s) g sid) (same_batches l)
        ∙ all_values (count - gone) gone (omega arith) (omega (arith, q.kept))
            (omega (arith, q.needed))
        ∙ get_or-range_from [] (gone * size) vs in
      l.returns ∙ ap (λ (t : List Bytes). (ok t, s)) all
