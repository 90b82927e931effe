-- ===== src/Ulid/RoundTrip.antt =====
-- Reading the time back out of an identifier.
use native.Mathlib.Nat.{pow-suc}
use native.Mathlib.Numerals.{add-one}
use durastash.Prelude.{
  ℕ, zero, suc, ◌+◌, ◌*◌, ◌/◌, ◌%◌, ◌^◌, ◌≤◌, ◌<◌, ◌≡◌, refl, ap, ◌∙◌, arith, [], ◌∷◌, ◌++◌, Bytes,
  length, get_or, true, false, leb, leb→le, all_below, all_below_sound,
}
use durastash.System.{System, IsInRange}
use durastash.Ulid.{
  push_digit, encoding_char, decode_base32_loop, decode_timestamp, decode_base32, encode_timestamp,
  generate_at, extract_timestamp, is_valid,
}
use durastash.Ulid.Validity.{is_valid-generate_at}
use durastash.Ulid.Digits.{base32, length-base32, encode_timestamp-base32, push_digit-encoding_char}

-- The decoder over a list of cells.
fold_digits : ℕ → Bytes → ℕ
fold_digits r [] = r
fold_digits r (c ∷ cs) = fold_digits (push_digit r c) cs

fold_digits-append :
    (r : ℕ) (xs : Bytes) (c : ℕ) → fold_digits r (xs ++ (c ∷ [])) ≡ push_digit (fold_digits r xs) c
unfolding fold_digits
fold_digits-append r [] c = refl
fold_digits-append r (x ∷ xs) c = fold_digits-append (push_digit r x) xs c

decode_base32_loop_shift :
    (n i r c : ℕ) (str : Bytes)
    → decode_base32_loop n (i + 1) (c ∷ str) r ≡ decode_base32_loop n i str r
unfolding decode_base32_loop
decode_base32_loop_shift zero i r c str = refl
decode_base32_loop_shift (suc n) i r c str =
    ap (λ t. decode_base32_loop n (i + 1 + 1) (c ∷ str) (push_digit r t)) (cell i)
    ∙ decode_base32_loop_shift n (i + 1) (push_digit r (get_or str i 0)) c str
  where
    cell : (j : ℕ) → get_or (c ∷ str) (j + 1) 0 ≡ get_or str j 0
    cell j = rw add-one

decode_base32_loop-fold :
    (xs rest : Bytes) (r : ℕ) → decode_base32_loop (length xs) 0 (xs ++ rest) r ≡ fold_digits r xs
unfolding decode_base32_loop fold_digits
decode_base32_loop-fold [] rest r = refl
decode_base32_loop-fold (x ∷ xs) rest r =
    decode_base32_loop_shift (length xs) 0 (push_digit r x) x (xs ++ rest)
    ∙ decode_base32_loop-fold xs rest (push_digit r x)

-- What the digits above the `n` lowest ones stand for.
high_digits : ℕ → ℕ → ℕ
high_digits zero t = t
high_digits (suc n) t = high_digits n (t / 32)

pow_table : all_below 11 (λ n. leb (32 ^ n) (2 ^ 50)) ≡ true
unfolding all_below
pow_table = refl

pow_small : (n : ℕ) → n ≤ 10 → 32 ^ n ≤ 2 ^ 50
pow_small n h = leb→le _ _ (all_below_sound 11 _ n pow_table (omega arith))

-- The digits and what stands above them make up the number.
fold_digits-base32 :
    (n t : ℕ)
    → n ≤ 10
    → (fold_digits 0 (base32 n t) + 32 ^ n * high_digits n t ≡ t)
      × (fold_digits 0 (base32 n t) < 32 ^ n)
unfolding base32 high_digits fold_digits
fold_digits-base32 zero t h = (omega arith, omega arith)
fold_digits-base32 (suc n) t h =
    let (sum, below) = fold_digits-base32 n (t / 32) (omega arith) in
    let small = pow_small n (omega arith) in
    let last : fold_digits 0 (base32 n (t / 32) ++ (encoding_char (t % 32) ∷ []))
        ≡ fold_digits 0 (base32 n (t / 32)) * 32 + t % 32 =
      fold_digits-append 0 (base32 n (t / 32)) (encoding_char (t % 32))
      ∙ push_digit-encoding_char _ (t % 32) (omega arith) (omega arith) in
    (
      omega (arith, last, sum, ap (λ (p : ℕ). p * high_digits n (t / 32)) (pow-suc 32 n)),
      omega (arith, last, below, pow-suc 32 n),
    )

pub decode_timestamp-encode_timestamp :
    (t : ℕ) (tail : Bytes) → decode_timestamp (encode_timestamp t tail) ≡ t % 2 ^ 50
unfolding decode_timestamp decode_base32
decode_timestamp-encode_timestamp t tail = rw encode_timestamp-base32 (
    rw (length-base32 10 t) at (decode_base32_loop-fold (base32 10 t) tail 0)
    ∙ omega (arith, fold_digits-base32 10 t (omega arith)))

module _ (sys : System) (law : IsInRange sys) where
  open sys use {Host}

  -- The time read out of a generated identifier is the time that went in, modulo 2^50, where the
  -- draws of the host lie below 32.
  pub extract_timestamp-generate_at :
      (t : ℕ) (host : Host) → extract_timestamp (generate_at sys t host).0 ≡ t % 2 ^ 50
  unfolding extract_timestamp
  extract_timestamp-generate_at t host = rw (is_valid-generate_at sys law t host) time
    where
      time : decode_timestamp (generate_at sys t host).0 ≡ t % 2 ^ 50
      time = unfold generate_at in decode_timestamp-encode_timestamp t _

-- A string that is no identifier has the time 0.
pub extract_timestamp_invalid : (s : Bytes) → is_valid s ≡ false → extract_timestamp s ≡ 0
unfolding extract_timestamp
extract_timestamp_invalid s h = rw h
