-- ===== src/Ulid.antt =====
-- include/durastash/ulid.h and src/ulid.cpp: identifiers of 26 characters in base 32, ten for the
-- time and sixteen random ones. A `char` buffer is the list of its cells.
use Prim.Native.Nat.{bit_and, bit_or}
use durastash.Prelude.{
  ℕ, zero, suc, ◌+◌, ◌*◌, ◌/◌, ◌%◌, ◌^◌, Bool, false, true, ◌&&◌, List, [], ◌∷◌, ◌++◌, Bytes, codes,
  ◌==◌, if◌then◌else◌, length, get_or,
}
use durastash.Prelude.Int.{u64_mod}
use durastash.System.{System}
pub mod Digits
pub mod RoundTrip
pub mod Random
pub mod Validity
pub mod Order

abbrev pub ulid_length : ℕ
ulid_length = 26

abbrev pub timestamp_length : ℕ
timestamp_length = 10

unfoldable pub encoding_chars : Bytes
encoding_chars = codes "0123456789ABCDEFGHJKMNPQRSTVWXYZ"

-- `ENCODING_CHARS[i]`, for the indices below 32 that the code uses
unfoldable pub encoding_char : ℕ → ℕ
unfolding encoding_chars
encoding_char i = get_or encoding_chars i 0

-- The loop from the last cell down to the first: `rounds` cells are still to be written, and `tail`
-- is what stands behind them.
unfoldable pub encode_timestamp_loop : ℕ → ℕ → Bytes → Bytes
encode_timestamp_loop zero timestamp tail = tail
encode_timestamp_loop (suc i) timestamp tail =
    encode_timestamp_loop i (timestamp / 32) (encoding_char (bit_and timestamp 0x1F) ∷ tail)

-- The ten cells of the time, in front of the cells `tail`.
unfoldable pub encode_timestamp : ℕ → Bytes → Bytes
unfolding encode_timestamp_loop
encode_timestamp timestamp tail = encode_timestamp_loop timestamp_length timestamp tail

-- The loop that writes a random part: the digits of `part` from the lowest on.
unfoldable pub encode_part_loop : ℕ → ℕ → ℕ → Bytes
encode_part_loop zero i part = []
encode_part_loop (suc n) i part =
    encoding_char (bit_and (part / 2 ^ (i * 5)) 0x1F) ∷ encode_part_loop n (i + 1) part

-- `for (j < 32) if (ENCODING_CHARS[j] == c) { value = j; break; }`, with `value = 0` before it
unfoldable pub digit_value_loop : Bytes → ℕ → ℕ → ℕ
digit_value_loop [] j c = 0
digit_value_loop (x ∷ xs) j c = if x == c then j else digit_value_loop xs (j + 1) c

unfoldable pub digit_value : ℕ → ℕ
unfolding digit_value_loop encoding_chars
digit_value c = digit_value_loop encoding_chars 0 c

-- One round: `result = (result << 5) | value` in 64 bits.
unfoldable pub push_digit : ℕ → ℕ → ℕ
unfolding digit_value
push_digit result c = bit_or (result * 32 % u64_mod) (digit_value c)

unfoldable pub decode_base32_loop : ℕ → ℕ → Bytes → ℕ → ℕ
decode_base32_loop zero i str result = result
decode_base32_loop (suc n) i str result =
    decode_base32_loop n (i + 1) str (push_digit result (get_or str i 0))

unfoldable pub decode_base32 : Bytes → ℕ → ℕ → ℕ
unfolding decode_base32_loop push_digit
decode_base32 str start len = decode_base32_loop len start str 0

unfoldable pub decode_timestamp : Bytes → ℕ
unfolding decode_base32
decode_timestamp ulid = decode_base32 ulid 0 timestamp_length

-- The inner loop of the validity test: is `c` one of the characters?
unfoldable pub is_encoding_char : Bytes → ℕ → Bool
is_encoding_char [] c = false
is_encoding_char (x ∷ xs) c = if x == c then true else is_encoding_char xs c

unfoldable pub all_encoding_chars : Bytes → Bool
all_encoding_chars [] = true
all_encoding_chars (c ∷ cs) = is_encoding_char encoding_chars c && all_encoding_chars cs

unfoldable pub is_valid : Bytes → Bool
is_valid ulid = if length ulid == ulid_length then all_encoding_chars ulid else false

unfoldable pub extract_timestamp : Bytes → ℕ
extract_timestamp ulid = if is_valid ulid then decode_timestamp ulid else 0

module _ (sys : System) where
  open sys use {Host, clock_ms, draw}

  -- `part |= (uint64_t)distribution(generator) << (i * 5)`, for `n` rounds from `i` on
  unfoldable pub random_part_loop : ℕ → ℕ → ℕ → Host → ℕ × Host
  random_part_loop zero i part host = (part, host)
  random_part_loop (suc n) i part host =
      let (d, host') = draw host in
      random_part_loop n (i + 1) (bit_or part (d * 2 ^ (i * 5) % u64_mod)) host'

  -- The sixteen random cells: ten from the first part, six from the second.
  unfoldable pub encode_random : Host → Bytes × Host
  encode_random host =
      let (part1, host1) = random_part_loop 10 0 0 host in
      let (part2, host2) = random_part_loop 6 0 0 host1 in
      (encode_part_loop 10 0 part1 ++ encode_part_loop 6 0 part2, host2)

  -- `ULID::Now()`
  unfoldable pub now : Host → ℕ × Host
  now host = let (t, host') = clock_ms host in (t % u64_mod, host')

  -- `ULID::Generate(timestamp)`
  unfoldable pub generate_at : ℕ → Host → Bytes × Host
  generate_at timestamp host =
      let (random, host') = encode_random host in (encode_timestamp timestamp random, host')

  -- `ULID::Generate()`
  unfoldable pub generate : Host → Bytes × Host
  generate host = let (t, host') = now host in generate_at t host'
