-- ===== src/BatchManager/DataKeys.antt =====
-- The data keys of a batch: which there are, and that keys of different values differ.
use native.Mathlib.Decide.{dec_le}
use durastash.Prelude.{
  ℕ, zero, suc, ◌+◌, ◌-◌, ◌<◌, ◌≤◌, true, ℤ, ◌≡◌, refl, ap, ap, ◌∙◌, arith, List, [], ◌∷◌, map,
  Bytes, pos, length,
}
use durastash.Prelude.Int.{i64_limit, add_i64, add_i64-pos, add_i64-bounded, leb_ℤ, pos_part}
use durastash.BatchManager.{make_data_key, rounds, data_keys_loop, generate_data_keys}

-- The numbers from `m` on, `n` of them.
unfoldable pub range : ℕ → ℕ → List ℕ
range m zero = []
range m (suc n) = m ∷ range (m + 1) n

pub length-range : (m n : ℕ) → length (range m n) ≡ n
unfolding range
length-range m zero = refl
length-range m (suc n) = ap suc (length-range (m + 1) n)

module _ (g s id : Bytes) where
  -- The keys of the numbers from `m` on, `n` of them.
  unfoldable pub keys_of : ℕ → ℕ → List Bytes
  unfolding range
  keys_of m n = map (λ k. make_data_key g s id (pos k)) (range m n)

  data_keys_loop-keys :
      (c m n : ℕ)
      → m + c ≡ n + 1
      → n + 1 < i64_limit
      → data_keys_loop c g s id (pos m) (pos n) ≡ keys_of m c
  unfolding data_keys_loop keys_of
  data_keys_loop-keys zero m n h b = refl
  data_keys_loop-keys (suc c) m n h b =
      ground (arith, add_i64-pos m 1 (omega arith), data_keys_loop-keys c (m + 1) n (omega arith) b)

  -- For a range that ends below the largest `int64_t`, `GenerateDataKeys` returns the key of each
  -- number from the first to the last, in order, and none where the range is empty.
  pub generate_data_keys-keys :
      (m n : ℕ)
      → n + 1 < i64_limit
      → generate_data_keys g s id (pos m) (pos n) ≡ keys_of m (n + 1 - m)
  unfolding generate_data_keys rounds
  generate_data_keys-keys m n b =
      ap (λ (c : ℕ). data_keys_loop c g s id (pos m) (pos n)) count ∙ elim (dec_le m (n + 1)) [
        | yes p ↦ data_keys_loop-keys (n + 1 - m) m n (omega arith) b
        | no p ↦ none_left (n + 1 - m) (omega arith)
      ]
    where
      count : n + 0 + 1 - (m + 0) ≡ n + 1 - m
      count = omega arith

      none_left : (c : ℕ) → c ≡ 0 → data_keys_loop c g s id (pos m) (pos n) ≡ keys_of m c
      none_left c h = rw h (unfold data_keys_loop keys_of in refl)

  -- With enough rounds the loop ends by its own test.
  data_keys_loop-enough :
      (n a b : ℕ)
      → b + 1 < i64_limit
      → b + 1 - a ≤ n
      → data_keys_loop n g s id (pos a) (pos b) ≡ keys_of a (b + 1 - a)
  unfolding data_keys_loop
  data_keys_loop-enough zero a b below enough =
      let none_left : b + 1 - a ≡ 0 = omega (arith, enough) in rw none_left (unfold keys_of in refl)
  data_keys_loop-enough (suc n) a b below enough = elim (dec_le a b) [
    | yes p ↦
        let next : add_i64 (pos a) (pos 1) ≡ pos (a + 1) = add_i64-pos a 1 (omega (arith, below)) in
        let rest = data_keys_loop-enough n (a + 1) b below (omega (arith, enough)) in
        let count : b + 1 - a ≡ suc (b + 1 - (a + 1)) = omega arith in
        rw (next, rest, count) (unfold keys_of in ground arith)
    | no p ↦
        let none_left : b + 1 - a ≡ 0 = omega arith in rw none_left (unfold keys_of in ground arith)
  ]

  -- Up to the largest `int64_t` every round adds a key.
  data_keys_loop-overflow :
      (n : ℕ) (start : ℤ)
      → pos_part start < i64_limit
      → length (data_keys_loop n g s id start (pos (i64_limit - 1))) ≡ n
  unfolding data_keys_loop
  data_keys_loop-overflow zero start small = refl
  data_keys_loop-overflow (suc n) start small =
      let rest =
        data_keys_loop-overflow n (add_i64 start (pos 1)) (add_i64-bounded start (pos 1)) in
      let below : leb_ℤ start (pos (i64_limit - 1)) ≡ true = ground (arith, small) in
      ground (arith, rest, below)

  -- The loop of `GenerateDataKeys` over a range that ends below the largest `int64_t` ends by its
  -- own test, with the key of each number in order, given at least as many rounds as the range has
  -- numbers; over a range that ends at the largest `int64_t`, with the counter wrapping around, it
  -- has added a key in every round, however many there are.
  pub data_keys_loop_lem :
      (n a b : ℕ)
      → a < i64_limit
      → b + 1 < i64_limit
      → b + 1 - a ≤ n
      → (data_keys_loop n g s id (pos a) (pos b) ≡ keys_of a (b + 1 - a))
        × (length (data_keys_loop n g s id (pos a) (pos (i64_limit - 1))) ≡ n)
  data_keys_loop_lem n a b small below enough =
      (data_keys_loop-enough n a b below enough, data_keys_loop-overflow n (pos a) small)
