-- ===== src/Ulid/Order.antt =====
-- Identifiers are ordered by their times.
use durastash.Prelude.{
  ℕ, zero, suc, ◌/◌, ◌%◌, ◌^◌, ◌<◌, ◌≡◌, ◌⊎◌, inl, inr, ◌∙◌, arith, [], ◌∷◌, ◌++◌, Bytes, true,
  length,
}
use durastash.Prelude.Text.{bytes_lt}
use native.Mathlib.Nat.{pow-suc}
use durastash.System.{System}
use durastash.Ulid.{generate_at}
use durastash.Ulid.Digits.{base32, length-base32, encode_timestamp-base32, encoding_char_mono}

bytes_lt-append :
    (xs ys p q : Bytes)
    → length xs ≡ length ys
    → bytes_lt xs ys ≡ true
    → bytes_lt (xs ++ p) (ys ++ q) ≡ true
unfolding bytes_lt
bytes_lt-append [] [] p q h k = cc
bytes_lt-append [] (y ∷ ys) p q h k = absurd (omega arith)
bytes_lt-append (x ∷ xs) [] p q h k = absurd (omega arith)
bytes_lt-append (x ∷ xs) (y ∷ ys) p q h k = ground (arith, bytes_lt-append xs ys p q)

bytes_lt-append_left : (xs p q : Bytes) → bytes_lt p q ≡ true → bytes_lt (xs ++ p) (xs ++ q) ≡ true
unfolding bytes_lt
bytes_lt-append_left [] p q h = h
bytes_lt-append_left (x ∷ xs) p q h = ground (arith, bytes_lt-append_left xs p q)

high_or_low : (t u : ℕ) → t < u → (t / 32 < u / 32) ⊎ ((t / 32 ≡ u / 32) × (t % 32 < u % 32))
high_or_low t u h = ground arith

bytes_lt-base32 : (n t u : ℕ) → t < u → u < 32 ^ n → bytes_lt (base32 n t) (base32 n u) ≡ true
unfolding base32
bytes_lt-base32 zero t u h k = absurd (omega arith)
bytes_lt-base32 (suc n) t u h k = elim (high_or_low t u h) [
  | inl high ↦
      bytes_lt-append _ _ _ _ (length-base32 n (t / 32) ∙ omega (arith, length-base32 n (u / 32)))
        (bytes_lt-base32 n (t / 32) (u / 32) high (omega (arith, pow-suc 32 n)))
  | inr (same, low) ↦ rw same (
      bytes_lt-append_left (base32 n (u / 32)) _ _
        (unfold bytes_lt in rw (encoding_char_mono (t % 32) (u % 32) low (omega arith))))
]

module _ (sys : System) where
  open sys use {Host}

  -- An identifier of an earlier time is smaller, byte by byte, than one of a later time below
  -- 2^50, whatever the random cells are.
  pub generate_at_mono :
      (t u : ℕ) (h k : Host)
      → t < u
      → u < 2 ^ 50
      → bytes_lt (generate_at sys t h).0 (generate_at sys u k).0 ≡ true
  unfolding generate_at
  generate_at_mono t u h k lt bound = rw encode_timestamp-base32 (
      rw encode_timestamp-base32 (
        bytes_lt-append (base32 10 t) (base32 10 u) _ _
          (length-base32 10 t ∙ omega (arith, length-base32 10 u))
          (bytes_lt-base32 10 t u lt (omega arith))))
