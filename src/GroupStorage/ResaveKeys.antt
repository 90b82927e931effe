-- ===== src/GroupStorage/ResaveKeys.antt =====
-- The keys that `ResaveBatch` writes and those that it deletes.
use durastash.Prelude.{
  ℕ, ◌+◌, ◌-◌, ◌≤◌, ◌<◌, ◌≡◌, ◌≢◌, refl, ap, sym, ◌∙◌, arith, true, List, ◌∷◌, map, Bytes, pos, inl,
  inr,
}
use durastash.Prelude.Int.{i64_limit}
use durastash.Contents.{Elem}
use durastash.Types.{BatchMetadata}
use durastash.Ulid.{is_valid}
use durastash.Ulid.Validity.{is_valid_iff}
use durastash.BatchManager.{make_batch_metadata_key, make_data_key, generate_data_keys}
use durastash.BatchManager.DataKeys.{range, keys_of, generate_data_keys-keys}
use durastash.BatchManager.Keys.{
  make_batch_metadata_key-injective, make_data_key_iff, make_data_key-ne-metadata_key,
}
use durastash.GroupStorage.Queue.Blocks.{Elem-range}

module _ (g sid id : Bytes) where
  -- The keys of a batch: its metadata and its data.
  abbrev pub all_keys : BatchMetadata → List Bytes
  all_keys m =
      make_batch_metadata_key g sid id ∷ generate_data_keys g sid id m.sequence_start m.sequence_end

  abbrev pub key : ℕ → Bytes
  key i = make_data_key g sid id (pos i)

  pub key-apart : (i k : ℕ) → key i ≡ key k → i ≡ k
  key-apart i k p = ((make_data_key_iff g sid id id i k refl).0 p).1

  -- The data keys of as many numbers from `n` on.
  pub generate_data_keys-key :
      (n count : ℕ)
      → 0 < count
      → n + count < i64_limit
      → generate_data_keys g sid id (pos n) (pos (n + count - 1)) ≡ map key (range n count)
  unfolding keys_of
  generate_data_keys-key n count some_left small =
      let many : n + count - 1 + 1 - n ≡ count = omega arith in
      generate_data_keys-keys g sid id n (n + count - 1) (omega (arith, small))
      ∙ ap (keys_of g sid id n) many

  pub Elem-key :
      (n count : ℕ) (j : Bytes)
      → ((i : ℕ) → n ≤ i → i < n + count → j ≢ key i)
      → ¬ Elem j (map key (range n count))
  Elem-key n count j other x =
      let (k, low, high, p) = (Elem-range key n count j).0 x in other k low high p

  -- The data keys of a range carry the identifier of the batch.
  pub generate_data_keys-Elem :
      (a b : ℕ) (m : BatchMetadata) (j : Bytes)
      → m.sequence_start ≡ pos a
      → m.sequence_end ≡ pos b
      → b + 1 < i64_limit
      → Elem j (generate_data_keys g sid id m.sequence_start m.sequence_end)
      → (k : ℕ) × (j ≡ key k)
  unfolding keys_of
  generate_data_keys-Elem a b m j begins ends below x =
      let all : generate_data_keys g sid id m.sequence_start m.sequence_end
          ≡ keys_of g sid id a (b + 1 - a) =
        rw (begins, ends) (generate_data_keys-keys g sid id a b below) in
      let y : Elem j (keys_of g sid id a (b + 1 - a)) = rw all at x in
      let (k, low, high, p) = (Elem-range key a (b + 1 - a) j).0 y in (k, p)

-- The keys of two batches with different identifiers differ.
module _ (g sid id new : Bytes) (valid : is_valid id ≡ true) (new-valid : is_valid new ≡ true)
    (other : new ≢ id) (m : BatchMetadata) (a b : ℕ) (begins : m.sequence_start ≡ pos a)
    (ends : m.sequence_end ≡ pos b) (below : b + 1 < i64_limit) where
  pub key-spared : (i : ℕ) → ¬ Elem (key g sid new i) (all_keys g sid id m)
  key-spared i (inl p) = make_data_key-ne-metadata_key g sid new id (pos i) new-valid p
  key-spared i (inr x) =
      let (k, p) = generate_data_keys-Elem g sid id a b m (key g sid new i) begins ends below x in
      let len = ((is_valid_iff new).0 new-valid).0 ∙ sym ((is_valid_iff id).0 valid).0 in
      other (((make_data_key_iff g sid new id i k len).0 p).0)

  pub metadata_key-spared : ¬ Elem (make_batch_metadata_key g sid new) (all_keys g sid id m)
  metadata_key-spared (inl p) = other (make_batch_metadata_key-injective g sid new id p)
  metadata_key-spared (inr x) =
      let (k, p) =
        generate_data_keys-Elem g sid id a b m (make_batch_metadata_key g sid new) begins ends below
          x in
      make_data_key-ne-metadata_key g sid id new (pos k) valid (sym p)
