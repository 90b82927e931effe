-- ===== src/BatchManager/Lookup.antt =====
-- Which batch `FindBatchIdBySequenceId` finds for a number.
use durastash.Prelude.{
  ◌≡◌, ◌⊎◌, inl, inr, refl, ap, sym, ◌∙◌, arith, Bool, true, false, ◌&&◌, Bool-cases, Option-cases,
  some, List, [], ◌∷◌, Bytes, ℤ,
}
use durastash.Prelude.Text.{starts_with}
use durastash.Prelude.Int.{leb_ℤ}
use durastash.Contents.{Elem}
use durastash.Outcome.{ok}
use durastash.Storage.Contract.{StorageLaws}
use durastash.Types.{BatchMetadata, batch_metadata_from_json}
use durastash.Json.{Jsonable}
use durastash.Env.{Env, World, on_store}
use durastash.BatchManager.{
  BatchManager, batch_prefix, find_batch_loop, find_batch_id_by_sequence_id,
}

-- The range of the batch contains the number.
abbrev pub covers : BatchMetadata → ℤ → Bool
covers m n = leb_ℤ m.sequence_start n && leb_ℤ n m.sequence_end

module _ (js : Jsonable) (n : ℤ) where
  -- The entry is the metadata of a batch whose range contains the number.
  abbrev IsHit : List (Bytes × Bytes) → Bytes → Bytes → BatchMetadata → Type 0
  IsHit l k v m = Elem (k, v) l × (batch_metadata_from_json js v ≡ some m) × (covers m n ≡ true)

  abbrev Found : List (Bytes × Bytes) → Type 0
  Found l =
      ((k : Bytes) × (v : Bytes) × (m : BatchMetadata) × IsHit l k v m
        × (find_batch_loop js n l ≡ m.batch_id))
      ⊎ (((k v : Bytes) (m : BatchMetadata) → ¬ IsHit l k v m) × (find_batch_loop js n l ≡ []))

  passed_over :
      (k v : Bytes) (l : List (Bytes × Bytes))
      → ((m : BatchMetadata) → batch_metadata_from_json js v ≡ some m → covers m n ≡ false)
      → find_batch_loop js n ((k, v) ∷ l) ≡ find_batch_loop js n l
      → Found l
      → Found ((k, v) ∷ l)
  passed_over k v l other same (inl (j, u, m, (x, read, hit), run)) =
      inl (j, u, m, (inr x, read, hit), same ∙ run)
  passed_over k v l other same (inr (nowhere, run)) = inr (absent, same ∙ run)
    where
      absent : (j u : Bytes) (m : BatchMetadata) → ¬ IsHit ((k, v) ∷ l) j u m
      absent j u m (inl q, read, hit) =
          let here : batch_metadata_from_json js v ≡ some m =
            ap (λ (t : Bytes × Bytes). batch_metadata_from_json js t.1) (sym q) ∙ read in
          cc (other m here, hit)
      absent j u m (inr x, read, hit) = nowhere j u m (x, read, hit)

  find_batch_loop-Found : (l : List (Bytes × Bytes)) → Found l
  unfolding find_batch_loop
  find_batch_loop-Found [] = inr (λ k v m x. elim (x.0) [ ], refl)
  find_batch_loop-Found ((k, v) ∷ l) = elim (Option-cases (batch_metadata_from_json js v)) [
    | inl broken ↦
        passed_over k v l (λ m read. cc (broken, read)) (ground arith) (find_batch_loop-Found l)
    | inr (m, read) ↦ elim (Bool-cases (covers m n)) [
      | inl hit ↦ inl (k, v, m, (inl refl, read, hit), ground arith)
      | inr miss ↦
          passed_over k v l (λ m' read'. not_covered m m' read miss read') (ground arith)
            (find_batch_loop-Found l)
    ]
  ]
    where
      not_covered :
          (m m' : BatchMetadata)
          → batch_metadata_from_json js v ≡ some m
          → covers m n ≡ false
          → batch_metadata_from_json js v ≡ some m'
          → covers m' n ≡ false
      not_covered m m' read miss read' =
          let same : m ≡ m' = cc (read, read') in
          ap (λ (t : BatchMetadata). covers t n) (sym same) ∙ miss

module _ (e : Env) (st : StorageLaws e.storage) (bm : BatchManager) (set : bm.storage_set ≡ true)
    (g s : Bytes) where
  -- The store holds the metadata of a batch of the session whose range contains the number.
  abbrev pub IsStored : World e → ℤ → Bytes → Bytes → BatchMetadata → Type 0
  IsStored w n k v m =
      (starts_with (batch_prefix g s) k ≡ true)
      × (st.contents w.store k ≡ some v)
      × (batch_metadata_from_json e.json v ≡ some m)
      × (covers m n ≡ true)

  -- Over a ready storage that keeps its contract, FindBatchIdBySequenceId returns the identifier
  -- of a batch of the session whose stored metadata can be read and whose range contains the
  -- number, or the empty string where there is none, and changes nothing.
  pub find_batch_id_by_sequence_id_lem :
      (n : ℤ) (w : World e)
      → st.Ready w.store
      → ((k : Bytes) × (v : Bytes) × (m : BatchMetadata) × IsStored w n k v m
          × (find_batch_id_by_sequence_id e bm g s n w ≡ (ok m.batch_id, w)))
        ⊎ (((k v : Bytes) (m : BatchMetadata) → ¬ IsStored w n k v m)
            × (find_batch_id_by_sequence_id e bm g s n w ≡ (ok [], w)))
  find_batch_id_by_sequence_id_lem n w r =
      let (l, run, scan) = st.scan_prefix_law (batch_prefix g s) w.store r in
      let returns : find_batch_id_by_sequence_id e bm g s n w
          ≡ (ok (find_batch_loop e.json n l), w) =
        unfold find_batch_id_by_sequence_id on_store in ground (arith, run) in
      elim (find_batch_loop-Found e.json n l) [
        | inl (k, v, m, (x, read, hit), found) ↦
            let (t, c) = (scan.elem_iff k v).0 x in
            inl (k, v, m, (t, c, read, hit), returns ∙ ap (λ (b : Bytes). (ok b, w)) found)
        | inr (nowhere, found) ↦ inr (
          λ k v m (t, c, read, hit). nowhere k v m ((scan.elem_iff k v).1 (t, c), read, hit),
          returns ∙ ap (λ (b : Bytes). (ok b, w)) found,
        )
      ]
