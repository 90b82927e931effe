-- ===== src/BatchManager/Keys.antt =====
-- Keys of one session do not collide: data keys of different numbers or batches, and data keys with
-- the keys of metadata.
use durastash.Prelude.{
  ℕ, ◌≤◌, ◌≡◌, ◌≢◌, refl, ap, sym, ◌∙◌, arith, true, false, not, [], ◌∷◌, ◌++◌, Bytes, codes, ℤ,
  pos, length, All, ◌==◌, all_below, all_below_sound, ◌↔◌,
}
use durastash.Prelude.Text.{decimal_value, decimal_value-pad_left, starts_with, starts_with-append}
use durastash.Ulid.{is_valid, encoding_char}
use durastash.Ulid.Validity.{IsLetter, is_valid_iff}
use durastash.SessionManager.{make_session_state_key}
use durastash.BatchManager.{make_batch_metadata_key, make_data_key, batch_prefix}

pub append_cancel : (p a b : Bytes) → p ++ a ≡ p ++ b → a ≡ b
append_cancel [] a b h = h
append_cancel (x ∷ p) a b h = append_cancel p a b (cc)

front_cancel : (a b p q : Bytes) → length a ≡ length b → a ++ p ≡ b ++ q → (a ≡ b) × (p ≡ q)
front_cancel [] [] p q h e = (refl, e)
front_cancel [] (y ∷ b) p q h e = absurd (omega arith)
front_cancel (x ∷ a) [] p q h e = absurd (omega arith)
front_cancel (x ∷ a) (y ∷ b) p q h e =
    let (same, rest) = front_cancel a b p q (omega arith) (cc) in (cc, rest)

starts_with-cancel : (p q r : Bytes) → starts_with (p ++ q) (p ++ r) ≡ starts_with q r
unfolding starts_with
starts_with-cancel [] q r = refl
starts_with-cancel (x ∷ p) q r = ground (arith, starts_with-cancel p q r)

colon_table : all_below 32 (λ d. not (encoding_char d == 58)) ≡ true
unfolding all_below encoding_char
colon_table = refl

letter-ne-colon : (c : ℕ) → IsLetter c → c ≢ 58
letter-ne-colon c (d, lt, e) h =
    ground (arith, all_below_sound 32 (λ d. not (encoding_char d == 58)) d colon_table lt)

-- No string of six letters or more begins with `batch:`.
batch-letters :
    (id rest : Bytes)
    → All IsLetter id
    → 6 ≤ length id
    → starts_with (codes "batch:") (id ++ rest) ≡ false
unfolding starts_with
batch-letters (a ∷ b ∷ c ∷ d ∷ e ∷ f ∷ id) rest (_, (_, (_, (_, (_, (h, _)))))) n =
    ground (arith, letter-ne-colon f h)
batch-letters _ rest h n = absurd (omega arith)

module _ (g s : Bytes) where
  -- Two data keys of a session, for identifiers of one length and numbers from 0 on, are equal
  -- just if the identifiers and the numbers are equal.
  pub make_data_key_iff :
      (id id' : Bytes) (m n : ℕ)
      → length id ≡ length id'
      → (make_data_key g s id (pos m) ≡ make_data_key g s id' (pos n)) ↔ ((id ≡ id') × (m ≡ n))
  unfolding make_data_key
  make_data_key_iff id id' m n len = (
    λ h.
        let (same, rest) = front_cancel id id' _ _ len (
          append_cancel (codes ":") _ _
            (append_cancel s _ _ (append_cancel (codes ":") _ _ (append_cancel g _ _ h)))) in
        (
          same,
          sym (decimal_value-pad_left 20 m)
              ∙ ap (decimal_value 0) (append_cancel (codes ":") _ _ rest)
              ∙ decimal_value-pad_left 20 n,
        ),
    λ (same, number). cc (same, number),
  )

  pub make_batch_metadata_key-injective :
      (id id' : Bytes) → make_batch_metadata_key g s id ≡ make_batch_metadata_key g s id' → id ≡ id'
  unfolding make_batch_metadata_key
  make_batch_metadata_key-injective id id' h =
      append_cancel (codes ":batch:") _ _
        (append_cancel s _ _ (append_cancel (codes ":") _ _ (append_cancel g _ _ h)))

  -- A scan for the metadata of a session does not meet the data of a batch whose identifier is valid.
  pub batch_prefix-data_key :
      (id : Bytes) (n : ℤ)
      → is_valid id ≡ true
      → starts_with (batch_prefix g s) (make_data_key g s id n) ≡ false
  unfolding batch_prefix make_data_key
  batch_prefix-data_key id n v =
      let (len, letters) = (is_valid_iff id).0 v in
      starts_with-cancel g _ _
      ∙ starts_with-cancel (codes ":") _ _
      ∙ starts_with-cancel s _ _
      ∙ starts_with-cancel (codes ":") (codes "batch:") _
      ∙ batch-letters id _ letters (omega arith)

  -- Nor does it meet the state of a session.
  pub batch_prefix-state_key : starts_with (batch_prefix g s) (make_session_state_key g s) ≡ false
  unfolding batch_prefix make_session_state_key starts_with
  batch_prefix-state_key =
      starts_with-cancel g _ _
      ∙ starts_with-cancel (codes ":") (s ++ codes ":batch:") (s ++ codes ":state")
      ∙ starts_with-cancel s (codes ":batch:") (codes ":state")

  -- It meets the metadata of every batch of the session.
  pub batch_prefix-metadata_key :
      (id : Bytes) → starts_with (batch_prefix g s) (make_batch_metadata_key g s id) ≡ true
  unfolding batch_prefix make_batch_metadata_key
  batch_prefix-metadata_key id =
      starts_with-cancel g _ _
      ∙ starts_with-cancel (codes ":") _ _
      ∙ starts_with-cancel s _ _
      ∙ starts_with-append (codes ":batch:") id

  -- The data key of a batch with a valid identifier is never the key of metadata of the same
  -- session.
  pub make_data_key-ne-metadata_key :
      (id id' : Bytes) (n : ℤ)
      → is_valid id ≡ true
      → make_data_key g s id n ≢ make_batch_metadata_key g s id'
  make_data_key-ne-metadata_key id id' n v h = cc (
    batch_prefix-data_key id n v,
    batch_prefix-metadata_key id',
    ap (starts_with (batch_prefix g s)) h,
  )
