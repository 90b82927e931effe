-- ===== src/BatchManager/Pending.antt =====
-- The filter of `GetLoadableBatches`: which of the batches of a scan are pending.
use mathlib.Core.Path.{ap₂}
use durastash.Prelude.{
  ◌↔◌, ◌≡◌, refl, ap, sym, ◌∙◌, arith, true, false, none, some, List, [], ◌∷◌, Bytes, ℤ, Bool-cases,
  inl, inr,
}
use durastash.Contents.{Elem}
use durastash.Json.{Jsonable}
use durastash.Types.{
  BatchStatus, pending, loaded, acknowledged, BatchMetadata, batch_metadata_from_json,
}
use durastash.BatchManager.{is_pending, add_pending, pending_batches}

abbrev pub Entries : Type 0
Entries = List (Bytes × Bytes)

module _ (js : Jsonable) where
  -- Every value of the list is the JSON of metadata.
  abbrev pub IsReadable : Entries → Type 0
  IsReadable [] = Unit
  IsReadable ((k, v) ∷ l) =
      ((m : BatchMetadata) × (batch_metadata_from_json js v ≡ some m)) × IsReadable l

  -- One of the values is the JSON of a pending batch with this identifier and first number.
  abbrev pub HasPending : Entries → Bytes → ℤ → Type 0
  HasPending l id start =
      (k : Bytes) × (v : Bytes) × (m : BatchMetadata) × Elem (k, v) l
      × (batch_metadata_from_json js v ≡ some m)
      × (m.status ≡ pending)
      × (m.batch_id ≡ id)
      × (m.sequence_start ≡ start)

  HasPending-weaken :
      (k v : Bytes) (l : Entries) (id : Bytes) (start : ℤ)
      → HasPending l id start
      → HasPending ((k, v) ∷ l) id start
  HasPending-weaken k v l id start (k', v', m, x, e, p, i, n) = (k', v', m, inr x, e, p, i, n)

  module _ (k v : Bytes) (l : Entries) (m : BatchMetadata)
      (read : batch_metadata_from_json js v ≡ some m) where
    same_metadata :
        (k' v' : Bytes) (m' : BatchMetadata)
        → ◌≡◌ {A = Bytes × Bytes} (k', v') (k, v)
        → batch_metadata_from_json js v' ≡ some m'
        → m' ≡ m
    same_metadata k' v' m' q e =
        let v_eq : v' ≡ v = ap (λ (t : Bytes × Bytes). t.1) q in
        cc (e, ap (batch_metadata_from_json js) v_eq, read)

    added_sound :
        (bs : List (Bytes × ℤ)) (id : Bytes) (start : ℤ)
        → m.status ≡ pending
        → (Elem (id, start) bs → HasPending l id start)
        → Elem (id, start) ((m.batch_id, m.sequence_start) ∷ bs)
        → HasPending ((k, v) ∷ l) id start
    added_sound bs id start p ih (inl q) = (
      k,
      v,
      m,
      inl refl,
      read,
      p,
      ap (λ (t : Bytes × ℤ). t.0) (sym q),
      ap (λ (t : Bytes × ℤ). t.1) (sym q),
    )
    added_sound bs id start p ih (inr x) = HasPending-weaken k v l id start (ih x)

    added_complete :
        (bs : List (Bytes × ℤ)) (id : Bytes) (start : ℤ)
        → (HasPending l id start → Elem (id, start) bs)
        → HasPending ((k, v) ∷ l) id start
        → Elem (id, start) ((m.batch_id, m.sequence_start) ∷ bs)
    added_complete bs id start ih (k', v', m', inl q, e, p, i, n) =
        let m_eq : m' ≡ m = same_metadata k' v' m' q e in
        inl (
          ap₂ (λ (a : Bytes) (b : ℤ). (a, b)) (sym i ∙ ap (λ (t : BatchMetadata). t.batch_id) m_eq)
            (sym n ∙ ap (λ (t : BatchMetadata). t.sequence_start) m_eq))
    added_complete bs id start ih (k', v', m', inr x, e, p, i, n) =
        inr (ih (k', v', m', x, e, p, i, n))

    skipped_complete :
        (bs : List (Bytes × ℤ)) (id : Bytes) (start : ℤ)
        → is_pending m.status ≡ false
        → (HasPending l id start → Elem (id, start) bs)
        → HasPending ((k, v) ∷ l) id start
        → Elem (id, start) bs
    unfolding is_pending
    skipped_complete bs id start h ih (k', v', m', inl q, e, p, i, n) =
        let m_eq : m' ≡ m = same_metadata k' v' m' q e in
        cc (h, ap (λ (t : BatchMetadata). is_pending t.status) m_eq, ap is_pending p)
    skipped_complete bs id start h ih (k', v', m', inr x, e, p, i, n) =
        ih (k', v', m', x, e, p, i, n)

  is_pending-eq : (s : BatchStatus) → is_pending s ≡ true → s ≡ pending
  unfolding is_pending
  is_pending-eq pending h = refl
  is_pending-eq loaded h = cc
  is_pending-eq acknowledged h = cc

  -- The filter returns exactly the pending batches.
  pub pending_batches_iff :
      (l : Entries)
      → IsReadable l
      → (bs : List (Bytes × ℤ)) × (pending_batches js l ≡ some bs)
        × ((id : Bytes) (start : ℤ) → Elem (id, start) bs ↔ HasPending l id start)
  unfolding pending_batches add_pending
  pending_batches_iff [] h =
      ([], refl, λ id start. (λ x. absurd x, λ (k, v, m, x, e, p, i, n). absurd x))
  pending_batches_iff ((k, v) ∷ l) ((m, read), hs) =
      let (bs, run, iff) = pending_batches_iff l hs in
      elim (Bool-cases (is_pending m.status)) [
        | inl p ↦ (
          (m.batch_id, m.sequence_start) ∷ bs,
          ground (arith, run),
          λ id start. (
            added_sound k v l m read bs id start (is_pending-eq m.status p) (iff id start).0,
            added_complete k v l m read bs id start (iff id start).1,
          ),
        )
        | inr p ↦ (
          bs,
          ground (arith, run),
          λ id start. (
            λ x. HasPending-weaken k v l id start ((iff id start).0 x),
            skipped_complete k v l m read bs id start p (iff id start).1,
          ),
        )
      ]

  -- One value that is not valid JSON makes the filter fail.
  pub pending_batches_broken :
      (l : Entries) (k v : Bytes)
      → Elem (k, v) l
      → batch_metadata_from_json js v ≡ none
      → pending_batches js l ≡ none
  unfolding pending_batches
  pending_batches_broken [] k v x h = elim x [ ]
  pending_batches_broken ((j, u) ∷ l) k v (inl q) h =
      let same : v ≡ u = ap (λ (t : Bytes × Bytes). t.1) q in ground arith
  pending_batches_broken ((j, u) ∷ l) k v (inr x) h =
      ground (arith, pending_batches_broken l k v x h)
