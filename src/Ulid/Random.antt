-- ===== src/Ulid/Random.antt =====
-- The random part of an identifier: its characters are those of the draws, in their order.
use Prim.Native.Nat.{bit_and, bit_or}
use native.Mathlib.Nat.{add-mul-div_left, div-eq_of_lt}
use native.Mathlib.Numerals.{towards_suc}
use durastash.Prelude.{
  ℕ, zero, suc, ◌+◌, ◌*◌, ◌/◌, ◌%◌, ◌^◌, ◌≤◌, ◌<◌, ◌≡◌, refl, sym, ap, ◌∙◌, arith, List, [], ◌∷◌,
  ◌++◌, Bytes, true, map, length, All, leb, leb→le, all_below, all_below_sound,
}
use durastash.Prelude.Bits.{bit_and-31, bit_or-shifted}
use durastash.Prelude.Int.{u64_mod}
use durastash.System.{System, IsInRange}
use durastash.Ulid.{encoding_char, encode_part_loop, random_part_loop, encode_random, generate_at}
use durastash.Ulid.Digits.{base32, encode_timestamp-base32}

-- The number whose digits of base 32 are the list, the lowest one first.
unfoldable pub digits_value : List ℕ → ℕ
digits_value [] = 0
digits_value (d ∷ ds) = d + 32 * digits_value ds

pow_add_five : (k : ℕ) → 2 ^ (k + 5) ≡ 32 * 2 ^ k
pow_add_five k = simp towards_suc (omega arith)

pow_step : (i : ℕ) → 2 ^ ((i + 1) * 5) ≡ 32 * 2 ^ (i * 5)
pow_step i = ap (λ (k : ℕ). 2 ^ k) next ∙ pow_add_five (i * 5)
  where
    next : (i + 1) * 5 ≡ i * 5 + 5
    next = omega arith

pow_table : all_below 12 (λ i. leb (32 * 2 ^ (i * 5)) (2 ^ 60)) ≡ true
unfolding all_below
pow_table = refl

pow_small : (i : ℕ) → i < 12 → 32 * 2 ^ (i * 5) ≤ 2 ^ 60
pow_small i h = leb→le _ _ (all_below_sound 12 _ i pow_table h)

-- `(part >> 5i) & 0x1F` where the digits from the `i`-th on are known.
digit_at : (p m d v : ℕ) → p < m → d < 32 → bit_and ((p + m * (d + 32 * v)) / m) 31 ≡ d
digit_at p m d v hp hd = rw bit_and-31 (omega (arith, quotient))
  where
    quotient : (p + m * (d + 32 * v)) / m ≡ d + 32 * v
    quotient =
        add-mul-div_left p (d + 32 * v) (omega arith)
        ∙ omega (arith, div-eq_of_lt {n = p} {m = m} hp)

-- The writing loop shows the digits of the part as they are.
encode_part_loop-digits :
    (ds : List ℕ) (i p : ℕ)
    → All (λ d. d < 32) ds
    → p < 2 ^ (i * 5)
    → encode_part_loop (length ds) i (p + 2 ^ (i * 5) * digits_value ds) ≡ map encoding_char ds
unfolding encode_part_loop digits_value
encode_part_loop-digits [] i p h hp = refl
encode_part_loop-digits (d ∷ ds) i p (hd, hds) hp =
    rw (digit_at p (2 ^ (i * 5)) d (digits_value ds) hp hd) (
      ap (λ (t : Bytes). encoding_char d ∷ t)
        (ap (encode_part_loop (length ds) (i + 1)) regroup
          ∙ encode_part_loop-digits ds (i + 1) (p + 2 ^ (i * 5) * d) hds below))
  where
    regroup :
        p + 2 ^ (i * 5) * (d + 32 * digits_value ds)
        ≡ p + 2 ^ (i * 5) * d + 2 ^ ((i + 1) * 5) * digits_value ds
    regroup = omega (arith, ap (λ (t : ℕ). t * digits_value ds) (pow_step i))

    below : p + 2 ^ (i * 5) * d < 2 ^ ((i + 1) * 5)
    below = grind (arith, pow_step i)

module _ (sys : System) where
  open sys use {Host, draw}

  -- `n` draws, one after the other.
  unfoldable pub draws : ℕ → Host → List ℕ × Host
  draws zero host = ([], host)
  draws (suc n) host =
      let (d, host1) = draw host in let (ds, host2) = draws n host1 in (d ∷ ds, host2)

  pub length-draws : (n : ℕ) (host : Host) → length (draws n host).0 ≡ n
  unfolding draws
  length-draws zero host = refl
  length-draws (suc n) host = ap suc (length-draws n (draw host).1)

  module _ (law : IsInRange sys) where
    pub draws-All : (n : ℕ) (host : Host) → All (λ d. d < 32) (draws n host).0
    unfolding draws
    draws-All zero host = tt
    draws-All (suc n) host = (law.draw_lt host, draws-All n (draw host).1)

    -- The loop of `|=` collects the draws as digits.
    random_part_loop-draws :
        (n i p : ℕ) (host : Host)
        → i + n ≤ 12
        → p < 2 ^ (i * 5)
        → random_part_loop sys n i p host
          ≡ (p + 2 ^ (i * 5) * digits_value (draws n host).0, (draws n host).1)
    unfolding random_part_loop draws digits_value
    random_part_loop-draws zero i p host h hp = ap (λ (t : ℕ). (t, host)) (omega arith)
    random_part_loop-draws (suc n) i p host h hp =
        ap (λ (t : ℕ). random_part_loop sys n (i + 1) t host1) joined
        ∙ random_part_loop-draws n (i + 1) (p + d * 2 ^ (i * 5)) host1 (omega arith) below
        ∙ ap (λ (t : ℕ). (t, (draws n host1).1)) regroup
      where
        d : ℕ
        d = (draw host).0

        host1 : Host
        host1 = (draw host).1

        fits : d * 2 ^ (i * 5) % u64_mod ≡ d * 2 ^ (i * 5)
        fits = grind (arith, law.draw_lt host, pow_small i (omega arith))

        joined : bit_or p (d * 2 ^ (i * 5) % u64_mod) ≡ p + d * 2 ^ (i * 5)
        joined = rw fits (bit_or-shifted (i * 5) p d hp)

        below : p + d * 2 ^ (i * 5) < 2 ^ ((i + 1) * 5)
        below = grind (arith, law.draw_lt host, pow_step i)

        regroup :
            p + d * 2 ^ (i * 5) + 2 ^ ((i + 1) * 5) * digits_value (draws n host1).0
            ≡ p + 2 ^ (i * 5) * (d + 32 * digits_value (draws n host1).0)
        regroup = omega (arith, ap (λ (t : ℕ). t * digits_value (draws n host1).0) (pow_step i))

    part-draws :
        (n : ℕ) (host : Host)
        → n ≤ 12
        → encode_part_loop n 0 (random_part_loop sys n 0 0 host).0
          ≡ map encoding_char (draws n host).0
    part-draws n host h =
        ap (λ (r : ℕ × Host). encode_part_loop n 0 r.0)
          (random_part_loop-draws n 0 0 host (omega arith) (omega arith))
        ∙ ap (λ (k : ℕ). encode_part_loop k 0 (0 + 2 ^ (0 * 5) * digits_value (draws n host).0))
            (sym (length-draws n host))
        ∙ encode_part_loop-digits (draws n host).0 0 0 (draws-All n host) (omega arith)

    part_host :
        (n : ℕ) (host : Host) → n ≤ 12 → (random_part_loop sys n 0 0 host).1 ≡ (draws n host).1
    part_host n host h =
        ap (λ (r : ℕ × Host). r.1) (random_part_loop-draws n 0 0 host (omega arith) (omega arith))

    -- The sixteen random cells are the characters of sixteen draws, in order.
    pub encode_random-draws :
        (host : Host)
        → encode_random sys host ≡ (
          map encoding_char (draws 10 host).0 ++ map encoding_char (draws 6 (draws 10 host).1).0,
          (draws 6 (draws 10 host).1).1,
        )
    unfolding encode_random
    encode_random-draws host = rw (part_host 10 host (omega arith)) (
        rw (
          part-draws 10 host (omega arith),
          part-draws 6 (draws 10 host).1 (omega arith),
          part_host 6 (draws 10 host).1 (omega arith),
        ))

    -- A generated identifier is the ten lowest digits of the time and the sixteen draws.
    pub generate_at-digits :
        (t : ℕ) (host : Host)
        → (generate_at sys t host).0
          ≡ base32 10 t
            ++ (map encoding_char (draws 10 host).0
                ++ map encoding_char (draws 6 (draws 10 host).1).0)
    unfolding generate_at
    generate_at-digits t host = rw encode_random-draws (encode_timestamp-base32 t _)
