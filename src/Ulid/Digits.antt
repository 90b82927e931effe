-- ===== src/Ulid/Digits.antt =====
-- The characters of base 32 and the digits that they stand for.
use durastash.Prelude.{
  ℕ, zero, suc, ◌+◌, ◌*◌, ◌/◌, ◌%◌, ◌^◌, ◌<◌, ◌≡◌, refl, ◌∙◌, arith, true, [], ◌∷◌, ◌++◌, Bytes,
  ◌==◌, ==_iff, ltb, length, length-append, all_below, all_below_sound,
}
use mathlib.Core.List.{append_assoc}
use durastash.Prelude.Bits.{bit_and-31, bit_or-digit}
use durastash.Prelude.Int.{u64_mod}
use durastash.Ulid.{
  encoding_chars, encoding_char, encode_timestamp_loop, encode_timestamp, digit_value, push_digit,
  is_encoding_char,
}

digit_table : all_below 32 (λ d. digit_value (encoding_char d) == d) ≡ true
unfolding all_below digit_value encoding_char
digit_table = refl

-- The character of a digit stands for that digit.
pub digit_value-encoding_char : (d : ℕ) → d < 32 → digit_value (encoding_char d) ≡ d
digit_value-encoding_char d h = (==_iff _ d).0 (all_below_sound 32 _ d digit_table h)

alphabet_table : all_below 32 (λ d. is_encoding_char encoding_chars (encoding_char d)) ≡ true
unfolding all_below encoding_char is_encoding_char encoding_chars
alphabet_table = refl

pub is_encoding_char-encoding_char :
    (d : ℕ) → d < 32 → is_encoding_char encoding_chars (encoding_char d) ≡ true
is_encoding_char-encoding_char d h = all_below_sound 32 _ d alphabet_table h

order_table : all_below 32 (λ b. all_below b (λ a. ltb (encoding_char a) (encoding_char b))) ≡ true
unfolding all_below encoding_char
order_table = refl

-- Characters are in the order of their digits.
pub encoding_char_mono : (a b : ℕ) → a < b → b < 32 → ltb (encoding_char a) (encoding_char b) ≡ true
encoding_char_mono a b h k =
    all_below_sound b _ a
      (all_below_sound 32 (λ b. all_below b (λ a. ltb (encoding_char a) (encoding_char b))) b
        order_table k)
      h

-- The `n` digits of base 32 of `t`, the most significant one first.
unfoldable pub base32 : ℕ → ℕ → Bytes
base32 zero t = []
base32 (suc n) t = base32 n (t / 32) ++ (encoding_char (t % 32) ∷ [])

encode_timestamp_loop-base32 :
    (n t : ℕ) (tail : Bytes) → encode_timestamp_loop n t tail ≡ base32 n t ++ tail
unfolding encode_timestamp_loop base32
encode_timestamp_loop-base32 zero t tail = refl
encode_timestamp_loop-base32 (suc n) t tail =
    encode_timestamp_loop-base32 n (t / 32) _ ∙ rw (bit_and-31, append_assoc)

-- The code writes the ten lowest digits of the time.
pub encode_timestamp-base32 : (t : ℕ) (tail : Bytes) → encode_timestamp t tail ≡ base32 10 t ++ tail
unfolding encode_timestamp
encode_timestamp-base32 t tail = encode_timestamp_loop-base32 10 t tail

-- A round of the decoder on the character of a digit, while the result has room.
pub push_digit-encoding_char :
    (r d : ℕ) → d < 32 → r < 2 ^ 59 → push_digit r (encoding_char d) ≡ r * 32 + d
unfolding push_digit
push_digit-encoding_char r d h k = rw (digit_value-encoding_char d h) (rw fits (bit_or-digit r d h))
  where
    fits : r * 32 % u64_mod ≡ r * 32
    fits = omega arith

pub length-base32 : (n t : ℕ) → length (base32 n t) ≡ n
unfolding base32
length-base32 zero t = refl
length-base32 (suc n) t = rw length-append (omega (arith, length-base32 n (t / 32)))
